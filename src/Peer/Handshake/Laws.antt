-- ===== src/Peer/Handshake/Laws.antt =====
-- A peer's handshake is accepted exactly when it has the form that `sendHandshake` writes.
use Prim.Native.Nat.{bit_and}
use amish.Base.{
  ℕ, ◌≡◌, refl, sym, ap, ◌∙◌, Bool, true, false, not, [], ◌∷◌, ◌++◌, Bytes, bytes_eq, ◌==◌,
  if◌then◌else◌, length, Result, ok, err, ◌>>=◌, arith, lengths, bytes_eq_refl, append-nil,
  take_all, drop-append_past, take-append_of_eq, drop-append_of_eq, ge→ltb,
}
use amish.Peer.Handshake.{
  Error, Greeting, bad_protocol, bad_info_hash, protocol_id, extension_bit, send_handshake,
  build_handshake_bytes, check_handshake, recv_handshake,
}

-- What the other end makes of the four parts of a handshake.
abbrev pub outcome : Bytes → Bytes → ℕ → Bytes → Bytes → Bytes → Result Error (Greeting × Bytes)
outcome expected pstr flags info_hash peer_id rest =
    if bytes_eq pstr protocol_id
    then if bytes_eq info_hash expected
      then ok (
        record { supports_extension = not (bit_and flags extension_bit == 0); peer_id = peer_id },
        rest,
      )
      else err bad_info_hash
    else err bad_protocol

module _ (expected pstr : Bytes) (a b c d e flags g h : ℕ) (info_hash peer_id : Bytes)
    (hp : length pstr ≡ 19) (hi : length info_hash ≡ 20) (hq : length peer_id ≡ 20) where
  parts : Bytes
  parts = pstr ++ (a ∷ b ∷ c ∷ d ∷ e ∷ flags ∷ g ∷ h ∷ (info_hash ++ peer_id))

  length-parts : length parts ≡ 67
  unfolding parts
  length-parts = omega lengths

  check_handshake-parts :
      (rest : Bytes)
      → (check_handshake expected parts >>= λ r. ok (r, rest))
        ≡ outcome expected pstr flags info_hash peer_id rest
  unfolding check_handshake parts
  check_handshake-parts rest =
      let tail = a ∷ b ∷ c ∷ d ∷ e ∷ flags ∷ g ∷ h ∷ (info_hash ++ peer_id) in
      rw
        (
          take-append_of_eq 19 pstr tail hp,
          drop-append_past 19 28 pstr tail hp,
          drop-append_past 19 8 pstr tail hp,
          drop-append_of_eq 19 pstr tail hp,
          take-append_of_eq 20 info_hash peer_id hi,
          drop-append_of_eq 20 info_hash peer_id hi,
          take_all 20 peer_id (omega arith),
        )
        (ground arith)

  recv_handshake-parts :
      (rest : Bytes)
      → recv_handshake expected (19 ∷ (parts ++ rest))
        ≡ outcome expected pstr flags info_hash peer_id rest
  recv_handshake-parts rest =
      unfold recv_handshake in
      rw
        (
          ge→ltb (length (parts ++ rest)) 67 (omega (lengths, length-parts)),
          take-append_of_eq 67 parts rest length-parts,
          drop-append_of_eq 67 parts rest length-parts,
        )
        (check_handshake-parts rest)

-- The handshake that `sendHandshake` writes is accepted at the other end exactly if both ends name
-- the same info hash; the extension bit and the peer id arrive, and the bytes behind are left.
pub recv_handshake-send_handshake :
    (expected info_hash peer_id rest : Bytes)
    → length info_hash ≡ 20
    → length peer_id ≡ 20
    → recv_handshake expected (send_handshake info_hash peer_id ++ rest) ≡ (
        if bytes_eq info_hash expected
        then ok (record { supports_extension = true; peer_id = peer_id }, rest)
        else err bad_info_hash)
recv_handshake-send_handshake expected info_hash peer_id rest hi hq =
    unfold send_handshake parts in
    recv_handshake-parts expected protocol_id 0 0 0 0 0 extension_bit 0 0 info_hash peer_id refl hi
      hq rest

-- The same of `BuildHandshakeBytes`, which may leave the extension bit out.
pub recv_handshake-build_handshake_bytes :
    (info_hash peer_id : Bytes) (support_ext : Bool)
    → length info_hash ≡ 20
    → length peer_id ≡ 20
    → recv_handshake info_hash (build_handshake_bytes info_hash peer_id support_ext)
      ≡ ok (record { supports_extension = support_ext; peer_id = peer_id }, [])
unfolding build_handshake_bytes
recv_handshake-build_handshake_bytes info_hash peer_id support_ext hi hq =
    ap (recv_handshake info_hash) (ap (λ t. 19 ∷ t) (sym (append-nil _))) ∙ accepted support_ext
  where
    accepted :
        (b : Bool)
        → recv_handshake info_hash (build_handshake_bytes info_hash peer_id b ++ [])
          ≡ ok (record { supports_extension = b; peer_id = peer_id }, [])
    accepted true =
        unfold build_handshake_bytes parts in
        (recv_handshake-parts info_hash protocol_id 0 0 0 0 0 extension_bit 0 0 info_hash peer_id
            refl hi hq []
          ∙ rw (bytes_eq_refl info_hash))
    accepted false =
        unfold build_handshake_bytes parts in
        (recv_handshake-parts info_hash protocol_id 0 0 0 0 0 0 0 0 info_hash peer_id refl hi hq []
          ∙ rw (bytes_eq_refl info_hash))
