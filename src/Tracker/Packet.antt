-- ===== src/Tracker/Packet.antt =====
-- The packets that are sent over UDP, against the layout that BEP 15 gives.
use amish.Base.{
  ℕ, ◌+◌, ◌-◌, ◌^◌, ◌≡◌, sym, ap, ◌∙◌, ◌++◌, Bytes, length, drop, replicate, arith, append_assoc,
  length-append,
}
use amish.Base.Int.{to_word}
use amish.Base.Wire.{put_u16, put_u32, put_u64, put_at, put_at-append}
use amish.Tracker.{AnnounceParams, announce_request}

-- Connection id, action 1, transaction id, info hash, peer id, downloaded, left, uploaded, event 2,
-- IP address, key, number of peers -1, port.
abbrev pub announce_layout : ℕ → ℕ → AnnounceParams → Bytes
announce_layout connection_id transaction_id params =
    (put_u64 connection_id ++ (put_u32 1 ++ put_u32 transaction_id))
    ++ (params.info_hash
        ++ (params.peer_id
            ++ (put_u64 0
                ++ (put_u64 (to_word params.left)
                    ++ (put_u64 0
                        ++ (put_u32 2
                            ++ (put_u32 0
                                ++ (put_u32 0
                                    ++ (put_u32 (2 ^ 32 - 1) ++ put_u16 params.port)))))))))

abbrev front : ℕ → ℕ → Bytes
front connection_id transaction_id = put_u64 connection_id ++ (put_u32 1 ++ put_u32 transaction_id)

-- The fields behind the two hashes.
abbrev fields : ℕ → ℕ → Bytes → Bytes
fields left port buf =
    put_at (put_at (put_at (put_at buf 8 (put_u64 left)) 24 (put_u32 2)) 36 (put_u32 4294967295)) 40
      (put_u16 port)

fields_behind :
    (xs ys : Bytes) (left port : ℕ)
    → length xs ≡ 56
    → put_at
        (put_at
          (put_at (put_at (xs ++ ys) 64 (put_u64 left)) 80 (put_u32 2))
          92
          (put_u32 4294967295))
        96
        (put_u16 port)
      ≡ xs ++ fields left port ys
fields_behind xs ys left port e =
    let a = put_at ys 8 (put_u64 left) in
    let b = put_at a 24 (put_u32 2) in
    let c = put_at b 36 (put_u32 4294967295) in
    ap (λ s. put_at (put_at (put_at s 80 (put_u32 2)) 92 (put_u32 4294967295)) 96 (put_u16 port))
      (put_at-append xs ys 56 8 (put_u64 left) e)
    ∙ ap (λ s. put_at (put_at s 92 (put_u32 4294967295)) 96 (put_u16 port))
        (put_at-append xs a 56 24 (put_u32 2) e)
    ∙ ap (λ s. put_at s 96 (put_u16 port)) (put_at-append xs b 56 36 (put_u32 4294967295) e)
    ∙ put_at-append xs c 56 40 (put_u16 port) e

-- The two hashes, in a buffer whose front is written.
hashes_written :
    (a b : ℕ) (hash peer_id : Bytes)
    → length hash ≡ 20
    → length peer_id ≡ 20
    → put_at (put_at (front a b ++ replicate 82 0) 16 hash) 36 peer_id
      ≡ ((front a b ++ hash) ++ peer_id) ++ replicate 42 0
hashes_written a b hash peer_id eh ep =
    ap (λ n. put_at (front a b ++ (hash ++ drop (16 + n) (front a b ++ replicate 82 0))) 36 peer_id)
      eh
    ∙ ap (λ s. put_at s 36 peer_id) (sym (append_assoc (front a b) hash (replicate 62 0)))
    ∙ put_at-append (front a b ++ hash) (replicate 62 0) 36 0 peer_id
        (omega (arith, length-append (front a b) hash, eh))
    ∙ ap (λ n. (front a b ++ hash) ++ (peer_id ++ drop (0 + n) (replicate 62 0))) ep
    ∙ sym (append_assoc (front a b ++ hash) peer_id (replicate 42 0))

-- With hashes of twenty bytes, the announce request is laid out as the protocol says, and takes 98
-- bytes.
pub announce_request_layout :
    (connection_id transaction_id : ℕ) (params : AnnounceParams)
    → length params.info_hash ≡ 20
    → length params.peer_id ≡ 20
    → (announce_request connection_id transaction_id params
        ≡ announce_layout connection_id transaction_id params)
      × (length (announce_request connection_id transaction_id params) ≡ 98)
unfolding announce_request
announce_request_layout connection_id transaction_id params eh ep =
    let hash = params.info_hash in
    let pid = params.peer_id in
    let head = front connection_id transaction_id in
    let rest = fields (to_word params.left) params.port (replicate 42 0) in
    let size : length ((head ++ hash) ++ pid) ≡ 56 =
      omega (arith, length-append (head ++ hash) pid, length-append head hash, eh, ep) in
    let written : announce_request connection_id transaction_id params
        ≡ ((head ++ hash) ++ pid) ++ rest =
      ap
        (λ s.
          put_at
            (put_at (put_at (put_at s 64 (put_u64 (to_word params.left))) 80 (put_u32 2)) 92
              (put_u32 4294967295))
            96 (put_u16 params.port))
        (hashes_written connection_id transaction_id hash pid eh ep)
      ∙ fields_behind ((head ++ hash) ++ pid) (replicate 42 0) (to_word params.left) params.port
          size in
    (
      written ∙ append_assoc (head ++ hash) pid rest ∙ append_assoc head hash (pid ++ rest),
      ap length written ∙ omega (arith, length-append ((head ++ hash) ++ pid) rest, size),
    )
