-- ===== src/Bencode/RoundTrip/Dicts.antt =====
-- The entries of a dictionary: sorted and written, then read back in the order of their keys.
use amish.Base.{
  ℕ, zero, suc, ◌+◌, ◌*◌, ◌≤◌, ◌<◌, ◌≡◌, ◌≢◌, refl, ap, ap₂, ◌∙◌, List, [], ◌∷◌, ◌++◌, append_assoc,
  Bytes, length, arith, lengths, ok, ◌>>=◌, Bool-cases, inl, inr, All, ne→==,
}
use amish.Base.Decimal.{format_nat, IsDigit}
use amish.Base.Decimal.RoundTrip.{format_nat-IsDigit, format_nat-ne-nil}
use amish.Bencode.Syntax.{
  Value, Fields, string, end, field, LacksKey, IsMap, bytes_lt, max_alloc, insert,
}
use amish.Bencode.Encode.{Entry, encode_string, insert_entry, sort_entries, write_entries}
use amish.Bencode.Decode.{decode_value, decode_dict, decode_string}
use amish.Bencode.WellFormed.{insert_sorted, sort_fields}
use amish.Bencode.Maps.{append_fields, append_fields_assoc, insert-LacksKey, bytes_eq_comm}
use amish.Bencode.RoundTrip.Scalars.{decode_string-encode_string}

-- With enough fuel the bytes are read as `w`, whatever follows them.
abbrev pub ReadsAs : Bytes → Value → Type 0
ReadsAs b w = (f : ℕ) (rest : Bytes) → 2 * length b < f → decode_value f (b ++ rest) ≡ ok (w, rest)

-- The bytes do not start with the end mark.
abbrev pub IsOpen : Bytes → Type 0
IsOpen [] = ⊥
IsOpen (c ∷ s) = c ≢ b'e'

-- Each entry holds the key of a field, and the encoding of its value.
abbrev pub Matches : List Entry → Fields → Type 0
Matches [] end = Unit
Matches (e ∷ es) end = ⊥
Matches [] (field j w gs) = ⊥
Matches (e ∷ es) (field j w gs) =
    (e.0 ≡ j) × (length j ≤ max_alloc) × IsOpen e.1 × ReadsAs e.1 w × Matches es gs

IsOpen-of_digits : (s rest : Bytes) → s ≢ [] → All IsDigit s → IsOpen (s ++ rest)
IsOpen-of_digits [] rest h a = absurd (h refl)
IsOpen-of_digits (c ∷ s) rest h (hc, a) = omega arith

pub encode_string-IsOpen : (s : Bytes) → IsOpen (encode_string s)
unfolding encode_string
encode_string-IsOpen s =
    IsOpen-of_digits (format_nat (length s)) (b':' ∷ s) (format_nat-ne-nil (length s))
      (format_nat-IsDigit (length s))

-- `decodeValue` hands over to `decodeString` at a digit.
decode_value_digit :
    (f : ℕ) (s rest : Bytes)
    → s ≢ []
    → All IsDigit s
    → decode_value (suc f) (s ++ rest) ≡ (decode_string (s ++ rest) >>= λ (t, r). ok (string t, r))
unfolding decode_value
decode_value_digit f [] rest h a = absurd (h refl)
decode_value_digit f (c ∷ s) rest h (hc, a) = ground arith

pub decode_value-encode_string :
    (f : ℕ) (s rest : Bytes)
    → length s ≤ max_alloc
    → decode_value (suc f) (encode_string s ++ rest) ≡ ok (string s, rest)
decode_value-encode_string f s rest h =
    handed_over ∙ ap (λ r. r >>= λ (t, r). ok (string t, r)) (decode_string-encode_string s rest h)
  where
    handed_over :
        decode_value (suc f) (encode_string s ++ rest)
        ≡ (decode_string (encode_string s ++ rest) >>= λ (t, r). ok (string t, r))
    handed_over =
        unfold encode_string in
        rw (append_assoc (format_nat (length s)) (b':' ∷ s) rest) (
          decode_value_digit f (format_nat (length s)) (b':' ∷ (s ++ rest))
            (format_nat-ne-nil (length s)) (format_nat-IsDigit (length s)))

insert_entry-Matches :
    (e : Entry) (es : List Entry) (k : Bytes) (w : Value) (gs : Fields)
    → e.0 ≡ k
    → length k ≤ max_alloc
    → IsOpen e.1
    → ReadsAs e.1 w
    → Matches es gs
    → Matches (insert_entry e es) (insert_sorted k w gs)
unfolding insert_entry insert_sorted
insert_entry-Matches e [] k w end hk hl ho hr m = (hk, hl, ho, hr, tt)
insert_entry-Matches e (d ∷ es) k w end hk hl ho hr m = absurd m
insert_entry-Matches e [] k w (field j x gs) hk hl ho hr m = absurd m
insert_entry-Matches e (d ∷ es) k w (field j x gs) hk hl ho hr (dk, dl, do', dr, m) =
    elim (Bool-cases (bytes_lt j k)) [
      | inl lt ↦
          rw (ap₂ bytes_lt dk hk ∙ lt, lt)
            (dk, dl, do', dr, insert_entry-Matches e es k w gs hk hl ho hr m)
      | inr ge ↦ rw (ap₂ bytes_lt dk hk ∙ ge, ge) (hk, hl, ho, hr, (dk, dl, do', dr, m))
    ]

pub sort_entries-Matches :
    (es : List Entry) (gs : Fields) → Matches es gs → Matches (sort_entries es) (sort_fields gs)
unfolding sort_entries sort_fields
sort_entries-Matches [] end m = tt
sort_entries-Matches (e ∷ es) end m = absurd m
sort_entries-Matches [] (field k w gs) m = absurd m
sort_entries-Matches (e ∷ es) (field k w gs) (hk, hl, ho, hr, m) =
    insert_entry-Matches e (sort_entries es) k w (sort_fields gs) hk hl ho hr
      (sort_entries-Matches es gs m)

-- No key of the second map is in the first.
abbrev pub Apart : Fields → Fields → Type 0
Apart m end = Unit {0}
Apart m (field k w gs) = LacksKey k m × Apart m gs

pub Apart-end : (gs : Fields) → Apart end gs
Apart-end end = tt
Apart-end (field k w gs) = (tt, Apart-end gs)

LacksKey-append_fields :
    (i : Bytes) (fs gs : Fields) → LacksKey i fs → LacksKey i gs → LacksKey i (append_fields fs gs)
unfolding append_fields
LacksKey-append_fields i end gs hf hg = hg
LacksKey-append_fields i (field k w fs) gs (hk, hf) hg = (hk, LacksKey-append_fields i fs gs hf hg)

Apart-append_fields :
    (m : Fields) (k : Bytes) (w : Value) (gs : Fields)
    → LacksKey k gs
    → Apart m gs
    → Apart (append_fields m (field k w end)) gs
Apart-append_fields m k w end l a = tt
Apart-append_fields m k w (field j x gs) (lj, l) (aj, a) = (
  LacksKey-append_fields j m (field k w end) aj (bytes_eq_comm k j ∙ lj, tt),
  Apart-append_fields m k w gs l a,
)

-- One round of the loop of `decodeDict`, at an input that does not start with the end mark.
decode_dict_round :
    (f : ℕ) (m : Fields) (k : Bytes) (r rest : Bytes) (w : Value) (rest' : Bytes)
    → IsOpen r
    → decode_value f r ≡ ok (string k, rest)
    → decode_value f rest ≡ ok (w, rest')
    → decode_dict (suc f) m r ≡ decode_dict f (insert k w m) rest'
unfolding decode_value
decode_dict_round f m k [] rest w rest' ho hk hw = absurd ho
decode_dict_round f m k (c ∷ r) rest w rest' ho hk hw = rw (ne→== c b'e' ho, hk, hw)

pub IsOpen-append : (s t : Bytes) → IsOpen s → IsOpen (s ++ t)
IsOpen-append [] t h = absurd h
IsOpen-append (c ∷ s) t h = h

pub length-IsOpen_pos : (s : Bytes) → IsOpen s → 0 < length s
length-IsOpen_pos [] h = absurd h
length-IsOpen_pos (c ∷ s) h = omega arith

append_fields-end : (m : Fields) → append_fields m end ≡ m
unfolding append_fields
append_fields-end end = refl
append_fields-end (field k w m) = ap (field k w) (append_fields-end m)

length-write_entries :
    (e : Entry) (es : List Entry)
    → length (write_entries (e ∷ es))
      ≡ length (encode_string e.0) + length e.1 + length (write_entries es)
unfolding write_entries
length-write_entries e es = omega lengths

write_entries-append :
    (e : Entry) (es : List Entry) (rest : Bytes)
    → write_entries (e ∷ es) ++ rest ≡ encode_string e.0 ++ (e.1 ++ (write_entries es ++ rest))
unfolding write_entries
write_entries-append e es rest = simp append_assoc

decode_value_key :
    (f : ℕ) (s rest : Bytes)
    → 0 < f
    → length s ≤ max_alloc
    → decode_value f (encode_string s ++ rest) ≡ ok (string s, rest)
decode_value_key zero s rest lt h = absurd (omega arith)
decode_value_key (suc f) s rest lt h = decode_value-encode_string f s rest h

pub decode_dict-write_entries :
    (es : List Entry) (gs m : Fields) (f : ℕ) (rest : Bytes)
    → Matches es gs
    → IsMap gs
    → Apart m gs
    → 2 * length (write_entries es) + 1 < f
    → decode_dict f m (write_entries es ++ b'e' ∷ rest) ≡ ok (append_fields m gs, rest)
unfolding append_fields
decode_dict-write_entries es gs m zero rest h d a lt = absurd (omega arith)
decode_dict-write_entries [] end m (suc f) rest h d a lt =
    unfold decode_value write_entries in rw (append_fields-end m)
decode_dict-write_entries (e ∷ es) end m (suc f) rest h d a lt = absurd h
decode_dict-write_entries [] (field j w gs) m (suc f) rest h d a lt = absurd h
decode_dict-write_entries (e ∷ es) (field j w gs) m (suc f) rest (hk, hl, ho, hr, h) (dj, d) (aj, a)
      lt =
    let tail = write_entries es ++ b'e' ∷ rest in
    let size = length-write_entries e es in
    let opens = length-IsOpen_pos e.1 ho in
    rw (write_entries-append e es (b'e' ∷ rest), hk)
      (decode_dict_round f m j (encode_string j ++ (e.1 ++ tail)) (e.1 ++ tail) w tail
          (IsOpen-append (encode_string j) (e.1 ++ tail) (encode_string-IsOpen j))
          (decode_value_key f j (e.1 ++ tail) (omega arith) hl) (hr f tail (omega arith))
        ∙ ap (λ n. decode_dict f n tail) (insert-LacksKey j w m aj)
        ∙ decode_dict-write_entries es gs (append_fields m (field j w end)) f rest h d
            (Apart-append_fields m j w gs dj a)
            (omega (arith, length-IsOpen_pos (encode_string e.0) (encode_string-IsOpen e.0)))
        ∙ ap (λ n. ok (n, rest)) (append_fields_assoc m (field j w end) gs))
