-- ===== src/Dht/Query.antt =====
-- The table of queries: a response reaches the query with its id, the first one only.
use amish.Base.{
  ◌≡◌, refl, ap, ◌∙◌, Bool, true, false, Option, none, some, List, [], ◌∷◌, Bytes, bytes_eq,
  bytes_eq→eq, bytes_eq_refl, if◌then◌else◌, arith, Bool-cases, inl, inr,
}
use amish.Bencode.{Fields}
use amish.Dht.{deliver, enter_query, response_of}

abbrev Table : Type 0
Table = List (Bytes × Option Fields)

pub response_of-enter_query :
    (t u : Bytes) (qs : Table)
    → response_of u (enter_query t qs) ≡ (if bytes_eq t u then none else response_of u qs)
unfolding response_of enter_query
response_of-enter_query t u [] = ground arith
response_of-enter_query t u ((k, ch) ∷ rest) = elim (Bool-cases (bytes_eq k t)) [
  | inl e ↦ rw e (
      old (bytes_eq k u) (bytes_eq t u) (response_of u rest)
        (ap (λ j. bytes_eq j u) (bytes_eq→eq k t e)))
  | inr e ↦ rw e (
      new (bytes_eq k u) (bytes_eq t u) _ (response_of u rest)
        (λ ku tu. ground (arith, e, bytes_eq→eq k u ku, bytes_eq→eq t u tu, bytes_eq_refl u))
        (response_of-enter_query t u rest))
]
  where
    old :
        (ku tu : Bool) (o : Option Fields)
        → ku ≡ tu
        → (if ku then none else o) ≡ (if tu then none else if ku then ch else o)
    old true tu o h = ground (arith, h)
    old false tu o h = ground (arith, h)

    new :
        (ku tu : Bool) (o o' : Option Fields)
        → (ku ≡ true → tu ≡ true → ⊥)
        → o ≡ (if tu then none else o')
        → (if ku then ch else o) ≡ (if tu then none else if ku then ch else o')
    new true true o o' apart h = absurd (apart refl refl)
    new true false o o' apart h = refl
    new false tu o o' apart h = h

pub deliver-enter_query :
    (t : Bytes) (r : Fields) (qs : Table) → response_of t (deliver t r (enter_query t qs)) ≡ some r
unfolding response_of deliver enter_query
deliver-enter_query t r [] = rw (bytes_eq_refl t, deliver, bytes_eq_refl t) refl
deliver-enter_query t r ((k, ch) ∷ rest) = elim (Bool-cases (bytes_eq k t)) [
  | inl e ↦ rw (e, enter_query, e, deliver, e) refl
  | inr e ↦ rw (e, enter_query, e, deliver, e) (deliver-enter_query t r rest)
]

-- Another entry is left alone, and an entry that has a response keeps it.
deliver_other :
    (t u : Bytes) (r : Fields) (qs : Table)
    → bytes_eq t u ≡ false
    → response_of u (deliver t r qs) ≡ response_of u qs
unfolding response_of deliver
deliver_other t u r [] h = refl
deliver_other t u r ((k, ch) ∷ rest) h = elim (Bool-cases (bytes_eq k t)) [
  | inl e ↦ rw (e, deliver) (rw (ap (λ j. bytes_eq j u) (bytes_eq→eq k t e) ∙ h) refl)
  | inr e ↦ rw (e, deliver) (ap (λ o. if bytes_eq k u then ch else o) (deliver_other t u r rest h))
]

deliver_again :
    (t : Bytes) (r old : Fields) (qs : Table)
    → response_of t qs ≡ some old
    → response_of t (deliver t r qs) ≡ some old
unfolding response_of deliver
deliver_again t r old [] h = h
deliver_again t r old ((k, ch) ∷ rest) h = elim (Bool-cases (bytes_eq k t)) [
  | inl e ↦ rw (e, deliver, e) (ap (λ o. elim o [ none ↦ some r | some x ↦ some x ]) (rw e at h))
  | inr e ↦ rw (e, deliver, e) (deliver_again t r old rest (rw e at h))
]

-- A response reaches the query with its id: the first one, and no other query.
pub deliver_lem :
    (t u : Bytes) (r later : Fields) (qs : Table)
    → bytes_eq t u ≡ false
    → (response_of t (deliver t later (deliver t r (enter_query t qs))) ≡ some r)
      × (response_of u (deliver t r (enter_query t qs)) ≡ response_of u qs)
deliver_lem t u r later qs other = (
  deliver_again t later r (deliver t r (enter_query t qs)) (deliver-enter_query t r qs),
  deliver_other t u r (enter_query t qs) other ∙ response_of-enter_query t u qs ∙ rw other refl,
)
