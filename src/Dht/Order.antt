-- ===== src/Dht/Order.antt =====
-- Nodes in another order: what does not depend on the order in which a loop over the table meets them.
use mathlib.Core.List.{Permᴰ}
use amish.Base.{
  ℕ, zero, suc, ◌≡◌, refl, sym, ap, ap₂, subst, ◌∙◌, Bool, true, false, ◌||◌, List, [], ◌∷◌, ◌++◌,
  Bytes, bytes_eq, bytes_eq→eq, bytes_eq_refl, length, take, arith, All, Bool-cases, inl, inr,
}
use amish.Dht.Nodes.{Node, has_node}
use amish.Dht.Table.{AreNew}

-- The addresses of the nodes are distinct.
abbrev pub NoRepeat : List Node → Type 0
NoRepeat [] = Unit {0}
NoRepeat (n ∷ ns) = (has_node ns n.addr ≡ false) × NoRepeat ns

has_node-perm : {l m : List Node} (a : Bytes) → Permᴰ l m → has_node l a ≡ has_node m a
unfolding has_node
has_node-perm a Permᴰ.nil = refl
has_node-perm a (Permᴰ.cons e d) =
    ap₂ (λ (n : Node) b. bytes_eq n.addr a || b) e (has_node-perm a d)
has_node-perm a (Permᴰ.swap {a = x} {b = y} {l = l} e e') =
    or_swap (bytes_eq x.addr a) (bytes_eq y.addr a) (has_node l a)
    ∙ ap₂ (λ (m : Node) (n : Node). bytes_eq m.addr a || (bytes_eq n.addr a || has_node l a)) e' e
  where
    or_swap : (b c d : Bool) → (b || (c || d)) ≡ (c || (b || d))
    or_swap true true d = refl
    or_swap true false d = refl
    or_swap false true d = refl
    or_swap false false d = refl
has_node-perm a (Permᴰ.trans d d') = has_node-perm a d ∙ has_node-perm a d'

right_false : (b c : Bool) → (b || c) ≡ false → c ≡ false
right_false true c h = absurd (cc)
right_false false c h = h

left_false : (b c : Bool) → (b || c) ≡ false → b ≡ false
left_false true c h = absurd (cc)
left_false false c h = refl

bytes_eq_other : (s t : Bytes) → bytes_eq s t ≡ false → bytes_eq t s ≡ false
bytes_eq_other s t h = elim (Bool-cases (bytes_eq t s)) [
  | inl e ↦ absurd (ground (arith, h, bytes_eq_refl s, ap (λ u. bytes_eq s u) (bytes_eq→eq t s e)))
  | inr e ↦ e
]

pub NoRepeat-perm : {l m : List Node} → Permᴰ l m → NoRepeat l → NoRepeat m
NoRepeat-perm Permᴰ.nil h = tt
NoRepeat-perm (Permᴰ.cons {b = b} {l₁ = l₁} e d) (h, hs) = (
  sym (has_node-perm b.addr d) ∙ subst (λ (n : Node). has_node l₁ n.addr ≡ false) e h,
  NoRepeat-perm d hs,
)
NoRepeat-perm (Permᴰ.swap {a = a} {b = b} {l = l} e e') (h, (h', hs)) =
    subst NoRepeat (ap₂ (λ x y. x ∷ y ∷ l) e' e)
      (swapped a b l h h', (none_behind b l a.addr h, hs))
  where
    none_behind :
        (b : Node) (l : List Node) (x : Bytes) → has_node (b ∷ l) x ≡ false → has_node l x ≡ false
    none_behind b l x h = right_false (bytes_eq b.addr x) (has_node l x) (unfold has_node in h)

    swapped :
        (a b : Node) (l : List Node)
        → has_node (b ∷ l) a.addr ≡ false
        → has_node l b.addr ≡ false
        → has_node (a ∷ l) b.addr ≡ false
    swapped a b l h h' =
        let apart : bytes_eq a.addr b.addr ≡ false =
          bytes_eq_other b.addr a.addr
            (left_false (bytes_eq b.addr a.addr) (has_node l a.addr) (unfold has_node in h)) in
        unfold has_node in rw apart h'
NoRepeat-perm (Permᴰ.trans d d') h = NoRepeat-perm d' (NoRepeat-perm d h)

pub All-perm : (P : Node → Type 0) {l m : List Node} → Permᴰ l m → All P l → All P m
All-perm P Permᴰ.nil h = tt
All-perm P (Permᴰ.cons e d) (h, hs) = (subst P e h, All-perm P d hs)
All-perm P (Permᴰ.swap e e') (h, (h', hs)) = (subst P e' h', (subst P e h, hs))
All-perm P (Permᴰ.trans d d') h = All-perm P d' (All-perm P d h)

pub length-perm : {l m : List Node} → Permᴰ l m → length l ≡ length m
length-perm Permᴰ.nil = refl
length-perm (Permᴰ.cons e d) = ap suc (length-perm d)
length-perm (Permᴰ.swap e e') = refl
length-perm (Permᴰ.trans d d') = length-perm d ∙ length-perm d'

has_node-take :
    (n : ℕ) (ns : List Node) (a : Bytes) → has_node ns a ≡ false → has_node (take n ns) a ≡ false
unfolding has_node
has_node-take zero ns a h = refl
has_node-take (suc n) [] a h = refl
has_node-take (suc n) (m ∷ ns) a h = ground (arith, has_node-take n ns a, h)

pub NoRepeat-take : (n : ℕ) (ns : List Node) → NoRepeat ns → NoRepeat (take n ns)
NoRepeat-take zero ns h = tt
NoRepeat-take (suc n) [] h = tt
NoRepeat-take (suc n) (m ∷ ns) (h, hs) = (has_node-take n ns m.addr h, NoRepeat-take n ns hs)

pub All-take : (P : Node → Type 0) (n : ℕ) (ns : List Node) → All P ns → All P (take n ns)
All-take P zero ns h = tt
All-take P (suc n) [] h = tt
All-take P (suc n) (m ∷ ns) (h, hs) = (h, All-take P n ns hs)

has_node-append_one :
    (nodes : List Node) (n : Node) (x : Bytes)
    → has_node nodes x ≡ false
    → bytes_eq n.addr x ≡ false
    → has_node (nodes ++ n ∷ []) x ≡ false
unfolding has_node
has_node-append_one [] n x h e = rw e refl
has_node-append_one (m ∷ nodes) n x h e = ground (arith, has_node-append_one nodes n x, h, e)

-- What is neither in the table nor the node is not in the table with the node.
All-append_one :
    (nodes : List Node) (n : Node) (ns : List Node)
    → has_node ns n.addr ≡ false
    → All (λ m. has_node nodes m.addr ≡ false) ns
    → All (λ m. has_node (nodes ++ n ∷ []) m.addr ≡ false) ns
unfolding has_node
All-append_one nodes n [] h apart = tt
All-append_one nodes n (m ∷ ns) h (a, apart) = (
  has_node-append_one nodes n m.addr a
      (bytes_eq_other m.addr n.addr (left_false (bytes_eq m.addr n.addr) (has_node ns n.addr) h)),
  All-append_one nodes n ns (right_false (bytes_eq m.addr n.addr) (has_node ns n.addr) h) apart,
)

-- The addresses of these nodes are new to a table in which none of them is.
pub NoRepeat-AreNew :
    (nodes ns : List Node)
    → NoRepeat ns
    → All (λ n. has_node nodes n.addr ≡ false) ns
    → AreNew nodes ns
NoRepeat-AreNew nodes [] h apart = tt
NoRepeat-AreNew nodes (n ∷ ns) (h, hs) (a, apart) =
    (a, NoRepeat-AreNew (nodes ++ n ∷ []) ns hs (All-append_one nodes n ns h apart))
