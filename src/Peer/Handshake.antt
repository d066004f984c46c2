-- ===== src/Peer/Handshake.antt =====
-- The handshake of peer/conn.go: `sendHandshake`, `recvHandshake` and `BuildHandshakeBytes`. A
-- [20]byte is its bytes; what the two ends of the connection agree on is the bytes on the wire.
pub mod Laws
pub mod Sound
use Prim.Native.Nat.{bit_and}
use amish.Base.{
  ℕ, ◌+◌, ◌≡◌, refl, Bool, true, false, not, [], ◌∷◌, ◌++◌, Bytes, codes, bytes_eq, ◌==◌, ltb,
  if◌then◌else◌, length, get_or, take, drop, replicate, Result, ok, err, ◌>>=◌,
}

pub data Error : Type 0 where
  bad_protocol bad_info_hash : Error

abbrev pub protocol_id : Bytes
protocol_id = codes "BitTorrent protocol"

-- 0x10, the bit for BEP 10.
abbrev pub extension_bit : ℕ
extension_bit = 0x10

-- Eight reserved bytes, with the extension bit in the sixth.
abbrev pub reserved_with : ℕ → Bytes
reserved_with b = 0 ∷ 0 ∷ 0 ∷ 0 ∷ 0 ∷ b ∷ 0 ∷ 0 ∷ []

unfoldable pub send_handshake : Bytes → Bytes → Bytes
send_handshake info_hash peer_id =
    length protocol_id ∷ (protocol_id ++ (reserved_with extension_bit ++ (info_hash ++ peer_id)))

unfoldable pub build_handshake_bytes : Bytes → Bytes → Bool → Bytes
build_handshake_bytes info_hash peer_id support_ext =
    19
    ∷ (protocol_id
        ++ (reserved_with (if support_ext then extension_bit else 0) ++ (info_hash ++ peer_id)))

-- What `recvHandshake` records in the connection.
pub record Greeting : Type 0 where
  pub supports_extension : Bool
  pub peer_id : Bytes

-- The 67 bytes behind the length byte: `buf[:19]`, `buf[19:27]`, `buf[27:47]` and `buf[47:67]`.
unfoldable pub check_handshake : Bytes → Bytes → Result Error Greeting
check_handshake expected_hash buf =
    if bytes_eq (take 19 buf) protocol_id
    then if bytes_eq (take 20 (drop 27 buf)) expected_hash
      then ok (record {
        supports_extension = not (bit_and (get_or (take 8 (drop 19 buf)) 5 0) extension_bit == 0);
        peer_id = take 20 (drop 47 buf);
      })
      else err bad_info_hash
    else err bad_protocol

unfoldable pub recv_handshake : Bytes → Bytes → Result Error (Greeting × Bytes)
unfolding check_handshake
recv_handshake expected_hash [] = err bad_protocol
recv_handshake expected_hash (pstrlen ∷ r) =
    if pstrlen == 19
    then if ltb (length r) (48 + 19)
      then err bad_protocol
      else (do g ← check_handshake expected_hash (take (48 + 19) r); ok (g, drop (48 + 19) r))
    else err bad_protocol
