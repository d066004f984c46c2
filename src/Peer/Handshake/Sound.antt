-- ===== src/Peer/Handshake/Sound.antt =====
-- What `recvHandshake` accepts has the form that `sendHandshake` writes.
use Prim.Native.Nat.{bit_and}
use amish.Base.{
  ◌≡◌, ◌≤◌, refl, sym, ap, ◌∙◌, not, [], ◌∷◌, ◌++◌, Bytes, bytes_eq, ◌==◌, ltb, length, get_or,
  take, drop, ok, arith, Ensures, holds, fails, Ensures-if, Ensures->>=, Ensures-ok, append_assoc,
  take_all, bytes_eq→eq, take-append-drop, drop-drop, subst, ap₂, ==_iff, length-take, length-drop,
}
use amish.Peer.Handshake.{Greeting, protocol_id, extension_bit, check_handshake, recv_handshake}

-- What `recvHandshake` accepted: the length byte, the protocol's name, eight reserved bytes, the
-- expected info hash and a peer id of twenty bytes, in front of what is left.
abbrev pub Accepted : Bytes → Bytes → Greeting × Bytes → Type 0
Accepted expected r (g, rest) =
    (reserved : Bytes) × (length reserved ≡ 8)
    × (length g.peer_id ≡ 20)
    × (g.supports_extension ≡ not (bit_and (get_or reserved 5 0) extension_bit == 0))
    × (r ≡ 19 ∷ (protocol_id ++ (reserved ++ (expected ++ (g.peer_id ++ rest)))))

split_buffer :
    (buf : Bytes)
    → length buf ≡ 67
    → buf
      ≡ take 19 buf ++ (take 8 (drop 19 buf) ++ (take 20 (drop 27 buf) ++ take 20 (drop 47 buf)))
split_buffer buf size =
    sym (take-append-drop 19 buf)
    ∙ ap (λ t. take 19 buf ++ t) (sym (take-append-drop 8 (drop 19 buf)))
    ∙ ap (λ t. take 19 buf ++ (take 8 (drop 19 buf) ++ t))
        (sym (drop-drop 19 8 buf)
          ∙ sym (take-append-drop 20 (drop 27 buf))
          ∙ ap (λ t. take 20 (drop 27 buf) ++ t)
              (sym (drop-drop 27 20 buf)
                ∙ sym (take_all 20 (drop 47 buf) (omega (arith, length-drop 47 buf)))))

check_handshake-Ensures :
    (expected buf rest : Bytes)
    → length buf ≡ 67
    → Ensures
        (λ g. Accepted expected (19 ∷ (buf ++ rest)) (g, rest))
        (λ _. Unit {0})
        (check_handshake expected buf)
unfolding check_handshake
check_handshake-Ensures expected buf rest size =
    Ensures-if (bytes_eq (take 19 buf) protocol_id)
      (λ p.
        Ensures-if (bytes_eq (take 20 (drop 27 buf)) expected)
          (λ q. holds (
            take 8 (drop 19 buf),
            omega (arith, length-take 8 (drop 19 buf), length-drop 19 buf),
            omega (arith, length-take 20 (drop 47 buf), length-drop 47 buf),
            refl,
            ap (λ t. 19 ∷ t)
                (bytes (bytes_eq→eq (take 19 buf) protocol_id p)
                  (bytes_eq→eq (take 20 (drop 27 buf)) expected q)),
          ))
          λ _. fails tt)
      λ _. fails tt
  where
    bytes :
        take 19 buf ≡ protocol_id
        → take 20 (drop 27 buf) ≡ expected
        → buf ++ rest
          ≡ protocol_id ++ (take 8 (drop 19 buf) ++ (expected ++ (take 20 (drop 47 buf) ++ rest)))
    bytes p q = ap (λ t. t ++ rest) (split_buffer buf size) ∙ rw (p, q) (simp append_assoc)

recv_handshake-Ensures :
    (expected r : Bytes) → Ensures (Accepted expected r) (λ _. Unit {0}) (recv_handshake expected r)
unfolding recv_handshake
recv_handshake-Ensures expected [] = fails tt
recv_handshake-Ensures expected (p ∷ r) =
    Ensures-if (p == 19)
      (λ e.
        Ensures-if (ltb (length r) 67) (λ _. fails tt)
          λ enough.
            Ensures->>=
              (check_handshake-Ensures expected (take 67 r) (drop 67 r)
                (size (ground (arith, enough))))
              λ g h.
                holds
                  (subst (λ t. Accepted expected t (g, drop 67 r)) (whole ((==_iff p 19).0 e)) h))
      λ _. fails tt
  where
    size : 67 ≤ length r → length (take 67 r) ≡ 67
    size h = omega (arith, length-take 67 r)

    whole : p ≡ 19 → 19 ∷ (take 67 r ++ drop 67 r) ≡ p ∷ r
    whole e = ap₂ ◌∷◌ (sym e) (take-append-drop 67 r)

-- Every accepted handshake has that form.
pub recv_handshake_sound :
    (expected r : Bytes) (g : Greeting) (rest : Bytes)
    → recv_handshake expected r ≡ ok (g, rest)
    → Accepted expected r (g, rest)
recv_handshake_sound expected r g rest = Ensures-ok (recv_handshake-Ensures expected r)
