-- ===== src/Links.antt =====
-- The doubly linked lists, os/rt-thread-nano/include/rtservice.h. A node is named by its address; the lists that
-- the other modules keep as lists of numbers are rings of such nodes, the head first.
pub mod Ring
use lltrisc_v.Prelude.{
  ℕ, zero, suc, ◌+◌, ◌%◌, ◌^◌, ◌<◌, ◌≡◌, ◌≢◌, ◌⊎◌, inl, inr, refl, Bool, true, false, not, ◌&&◌,
  ◌||◌, Option, none, some, List, [], ◌∷◌, ◌++◌, arith, ◌==◌, if◌then◌else◌, update, mem, remove,
  nodup, length, Bool-cases, ==_refl,
}

-- `struct rt_list_node` at every address
pub record Links : Type 0 where
  pub next : ℕ → ℕ
  pub prev : ℕ → ℕ

-- `rt_list_init`
unfoldable pub list_init : ℕ → Links → Links
list_init l s = record { next = update s.next l l; prev = update s.prev l l }

-- `rt_list_insert_after`
unfoldable pub list_insert_after : (l n : ℕ) → Links → Links
list_insert_after l n s = record {
  next = update (update s.next n (s.next l)) l n;
  prev = update (update s.prev (s.next l) n) n l;
}

-- `rt_list_insert_before`
unfoldable pub list_insert_before : (l n : ℕ) → Links → Links
list_insert_before l n s = record {
  next = update (update s.next (s.prev l) n) n l;
  prev = update (update s.prev n (s.prev l)) l n;
}

-- `rt_list_remove`
unfoldable pub list_remove : ℕ → Links → Links
list_remove n s = record {
  next = update (update s.next (s.prev n) (s.next n)) n n;
  prev = update (update s.prev (s.next n) (s.prev n)) n n;
}

-- `rt_list_isempty`
unfoldable pub list_isempty : ℕ → Links → Bool
list_isempty l s = s.next l == l

-- The loop of `rt_list_len` from node `p`, on fuel.
unfoldable pub count_nodes : (fuel l p len : ℕ) → Links → Option ℕ
count_nodes zero l p len s = none
count_nodes (suc fuel) l p len s =
    let rest = count_nodes fuel l (s.next p) ((len + 1) % 2 ^ 32) s in
    if s.next p == l then some len else rest

-- `rt_list_len`
abbrev pub list_len : (fuel l : ℕ) → Links → Option ℕ
list_len fuel l s = count_nodes fuel l l 0 s

-- The nodes that lie between two nodes, linked both ways.
abbrev pub IsPath : Links → ℕ → List ℕ → ℕ → Type 0
IsPath s a [] b = (s.next a ≡ b) × (s.prev b ≡ a)
IsPath s a (x ∷ xs) b = (s.next a ≡ x) × (s.prev x ≡ a) × IsPath s x xs b

-- The list with its head `l` holds these nodes, each once.
pub record IsRing (s : Links) (l : ℕ) (nodes : List ℕ) : Type 0 where
  pub path : IsPath s l nodes l
  pub once : nodup (l ∷ nodes) ≡ true

pub same-IsPath :
    (s s' : Links) (a : ℕ) (xs : List ℕ) (b : ℕ)
    → ((u : ℕ) → mem u (a ∷ xs) ≡ true → s'.next u ≡ s.next u)
    → ((u : ℕ) → mem u (b ∷ xs) ≡ true → s'.prev u ≡ s.prev u)
    → IsPath s a xs b
    → IsPath s' a xs b
same-IsPath s s' a [] b h g (e, f) =
    (ground (arith, h a, ==_refl a, e), ground (arith, g b, ==_refl b, f))
same-IsPath s s' a (x ∷ xs) b h g (e, f, p) = (
  ground (arith, h a, ==_refl a, e),
  ground (arith, g x, ==_refl x, f),
  same-IsPath s s' x xs b (λ u m. h u (ground (arith, m))) (λ u m. g u (ground (arith, m))) p,
)

-- The node before the end is one of the path.
pub last_in :
    (s : Links) (a : ℕ) (xs : List ℕ) (b : ℕ) → IsPath s a xs b → mem (s.prev b) (a ∷ xs) ≡ true
last_in s a [] b (e, f) = ground (arith, f)
last_in s a (x ∷ xs) b (e, f, p) = ground (arith, last_in s x xs b p)

-- The neighbours of a node of the path.
pub before_in :
    (s : Links) (a : ℕ) (xs : List ℕ) (b n : ℕ)
    → IsPath s a xs b
    → mem n xs ≡ true
    → mem (s.prev n) (a ∷ xs) ≡ true
before_in s a [] b n p m = absurd (ground (arith, m))
before_in s a (x ∷ xs) b n (e, f, p) m = elim (Bool-cases (x == n)) [
  | inl q ↦ ground (arith, q, f)
  | inr q ↦ ground (arith, before_in s x xs b n p, m, q)
]

pub behind_in :
    (s : Links) (a : ℕ) (xs : List ℕ) (b n : ℕ)
    → IsPath s a xs b
    → mem n (a ∷ xs) ≡ true
    → mem (s.next n) (b ∷ xs) ≡ true
behind_in s a [] b n (e, f) m = ground (arith, e, m)
behind_in s a (x ∷ xs) b n (e, f, p) m = elim (Bool-cases (a == n)) [
  | inl q ↦ ground (arith, q, e)
  | inr q ↦ ground (arith, behind_in s x xs b n p, m, q)
]
