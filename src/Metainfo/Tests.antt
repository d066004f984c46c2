-- ===== src/Metainfo/Tests.antt =====
-- Theorems on the metadata at a concrete torrent.
use amish.Base.{◌≡◌, refl, Bytes, [], ◌∷◌, ◌++◌, codes, length, replicate, ok, err, arith}
use amish.Base.Int.{pos, wrap, ◌-ℤ◌, ◌*ℤ◌}
use amish.Base.Decimal.{parse_int}
use amish.Bencode.{lookup}
use amish.Bencode.Decode.{decode}
use amish.Metainfo.{Info, hash_mismatch, piece_size, total_length}
use amish.Metainfo.Parse.{parse}
use amish.Metainfo.Sound.{IsInfo, parse_sound}
use amish.Metainfo.Sizes.{sizes_below, sizes_below_total}

-- A digest that tells bytes apart by how many they are.
abbrev by_length : Bytes → Bytes
by_length s = length s ∷ []

abbrev raw_info : Bytes
raw_info =
    codes "d6:lengthi40e4:name1:a12:piece lengthi16e6:pieces60:" ++ replicate 60 7 ++ codes "e"

abbrev an_info : Info
an_info = record {
  name = codes "a";
  piece_length = pos 16;
  pieces = replicate 3 (replicate 20 7);
  size = pos 40;
  files = [];
}

parsed : parse by_length raw_info (length raw_info ∷ []) ≡ ok an_info
unfolding parse decode parse_int lookup
parsed = refl

refused : parse by_length raw_info (1 ∷ []) ≡ err hash_mismatch
unfolding parse
refused = refl

parse_sound_example : IsInfo an_info × (length raw_info ∷ [] ≡ length raw_info ∷ [])
parse_sound_example = parse_sound by_length raw_info (length raw_info ∷ []) an_info parsed

an_info_total : total_length an_info ≡ pos 40
unfolding total_length
an_info_total = refl

sizes_below_total_example : sizes_below an_info 3 ≡ 40
sizes_below_total_example =
    sizes_below_total an_info 40 16 2 an_info_total refl (omega arith) (omega arith) (omega arith)

last_size : piece_size an_info 2 ≡ pos 8
unfolding piece_size wrap ◌-ℤ◌ ◌*ℤ◌
last_size = refl
