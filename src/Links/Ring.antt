-- ===== src/Links/Ring.antt =====
-- What the calls on doubly linked lists make of the list, os/rt-thread-nano/include/rtservice.h.
use lltrisc_v.Prelude.{
  ℕ, zero, suc, ◌+◌, ◌%◌, ◌^◌, ◌<◌, ◌≡◌, ◌≢◌, inl, inr, refl, subst, ap, ◌∙◌, true, false, some,
  List, [], ◌∷◌, ◌++◌, arith, ◌==◌, mem, remove, nodup, length, Bool-cases, ==_refl, is_empty,
  nodup-snoc, nodup-remove, mem-append, mem-remove_ne,
}
use lltrisc_v.Links.{
  Links, list_init, list_insert_after, list_insert_before, list_remove, list_isempty, count_nodes,
  list_len, IsPath, IsRing, same-IsPath, last_in, before_in, behind_in,
}

pub list_init-IsRing : (l : ℕ) (s : Links) → IsRing (list_init l s) l []
unfolding list_init
list_init-IsRing l s = record {
  path = (ground (arith, ==_refl l), ground (arith, ==_refl l));
  once = refl;
}

insert_before-IsPath :
    (s : Links) (a : ℕ) (xs : List ℕ) (b n : ℕ)
    → IsPath s a xs b
    → nodup (a ∷ xs) ≡ true
    → mem b xs ≡ false
    → mem n (a ∷ xs) ≡ false
    → n ≢ b
    → IsPath (list_insert_before b n s) a (xs ++ n ∷ []) b
unfolding list_insert_before
insert_before-IsPath s a [] b n (e, f) once off new apart = (
  ground (arith, f, new),
  ground (arith, f, apart, ==_refl n),
  (ground (arith, ==_refl n), ground (arith, ==_refl b)),
)
insert_before-IsPath s a (x ∷ xs) b n (e, f, p) once off new apart = (
  ground (arith, e, last_in s x xs b p, once, new),
  ground (arith, f, off, new),
  insert_before-IsPath s x xs b n p (ground (arith, once)) (ground (arith, off))
      (ground (arith, new)) apart,
)

-- rt_list_insert_before the head puts a node that is not in the list at its end.
pub list_insert_before-IsRing :
    (s : Links) (l n : ℕ) (nodes : List ℕ)
    → IsRing s l nodes
    → mem n (l ∷ nodes) ≡ false
    → IsRing (list_insert_before l n s) l (nodes ++ n ∷ [])
list_insert_before-IsRing s l n nodes i new = record {
  path =
      insert_before-IsPath s l nodes l n i.path i.once (ground (arith, i.once)) new
        (ground (arith, new));
  once = ground (arith, i.once, new, nodup-snoc n nodes, mem-append l nodes (n ∷ []));
}

insert_after-IsPath :
    (s : Links) (l n : ℕ) (nodes : List ℕ)
    → IsPath s l nodes l
    → nodup (l ∷ nodes) ≡ true
    → mem n (l ∷ nodes) ≡ false
    → IsPath (list_insert_after l n s) l (n ∷ nodes) l
unfolding list_insert_after
insert_after-IsPath s l n [] (e, f) once new = (
  ground (arith, ==_refl l),
  ground (arith, ==_refl n),
  (ground (arith, e, new, ==_refl n), ground (arith, e, new, ==_refl l)),
)
insert_after-IsPath s l n (y ∷ ys) (e, f, p) once new = (
  ground (arith, ==_refl l),
  ground (arith, ==_refl n),
  (
    ground (arith, e, new, ==_refl n),
    ground (arith, e, new, ==_refl y),
    same-IsPath s (list_insert_after l n s) y ys l (λ u m. ground (arith, once, new, m))
        (λ u m. ground (arith, e, once, new, m)) p,
  ),
)

-- rt_list_insert_after the head puts a node that is not in the list at its start.
pub list_insert_after-IsRing :
    (s : Links) (l n : ℕ) (nodes : List ℕ)
    → IsRing s l nodes
    → mem n (l ∷ nodes) ≡ false
    → IsRing (list_insert_after l n s) l (n ∷ nodes)
list_insert_after-IsRing s l n nodes i new = record {
  path = insert_after-IsPath s l n nodes i.path i.once new;
  once = ground (arith, i.once, new);
}

-- The first node of a path is taken out.
remove-first :
    (s : Links) (a n : ℕ) (xs : List ℕ) (b : ℕ)
    → IsPath s a (n ∷ xs) b
    → nodup (a ∷ n ∷ xs) ≡ true
    → mem b (n ∷ xs) ≡ false
    → IsPath (list_remove n s) a xs b
unfolding list_remove
remove-first s a n [] b (e, f, (g, h)) once off =
    (ground (arith, f, g, once, ==_refl a), ground (arith, f, g, off, ==_refl b))
remove-first s a n (y ∷ ys) b (e, f, (g, h, p)) once off = (
  ground (arith, f, g, once, ==_refl a),
  ground (arith, f, g, once, ==_refl y),
  same-IsPath s (list_remove n s) y ys b (λ u m. ground (arith, f, once, m))
      (λ u m. ground (arith, g, once, off, m)) p,
)

remove-IsPath :
    (s : Links) (a : ℕ) (xs : List ℕ) (b n : ℕ)
    → IsPath s a xs b
    → nodup (a ∷ xs) ≡ true
    → mem b xs ≡ false
    → mem n xs ≡ true
    → IsPath (list_remove n s) a (remove n xs) b
unfolding list_remove
remove-IsPath s a [] b n p once off m = absurd (ground (arith, m))
remove-IsPath s a (x ∷ xs) b n (e, f, p) once off m = elim (Bool-cases (x == n)) [
  | inl q ↦
      let same : x ≡ n = ground (arith, q) in
      rw q (
        remove-first s a n xs b (subst (λ y. IsPath s a (y ∷ xs) b) same (e, f, p))
          (ground (arith, once, same)) (ground (arith, off, same)))
  | inr q ↦ rw q (
    ground (arith, e, q, before_in s x xs b n p, m, once),
    ground (arith, f, q, behind_in s x xs b n p, m, once, off),
    remove-IsPath s x xs b n p (ground (arith, once)) (ground (arith, off)) (ground (arith, m, q)),
  )
]

alone : (s : Links) (n : ℕ) → IsRing (list_remove n s) n []
unfolding list_remove
alone s n = record { path = (ground (arith, ==_refl n), ground (arith, ==_refl n)); once = refl }

-- rt_list_remove takes a node out of the list, and leaves it a list of its own.
pub list_remove-IsRing :
    (s : Links) (l n : ℕ) (nodes : List ℕ)
    → IsRing s l nodes
    → mem n nodes ≡ true
    → IsRing (list_remove n s) l (remove n nodes) × IsRing (list_remove n s) n []
list_remove-IsRing s l n nodes i m = (
  record {
    path = remove-IsPath s l nodes l n i.path i.once (ground (arith, i.once)) m;
    once = ground (arith, i.once, nodup-remove n nodes, mem-remove_ne l n nodes, m);
  },
  alone s n,
)

count_nodes-length :
    (s : Links) (fuel l p len : ℕ) (xs : List ℕ)
    → IsPath s p xs l
    → mem l xs ≡ false
    → length xs < fuel
    → len + length xs < 2 ^ 32
    → count_nodes fuel l p len s ≡ some (len + length xs)
unfolding count_nodes
count_nodes-length s zero l p len xs c off enough fits = absurd (omega (arith, enough))
count_nodes-length s (suc fuel) l p len [] (e, f) off enough fits =
    let sum : len + 0 ≡ len = omega arith in ground (arith, e, ==_refl l, sum)
count_nodes-length s (suc fuel) l p len (x ∷ xs) (e, f, c) off enough fits =
    let test : (s.next p == l) ≡ false = ground (arith, e, off) in
    let more : (len + 1) % 2 ^ 32 ≡ len + 1 = omega (arith, fits) in
    let rest =
      count_nodes-length s fuel l x (len + 1) xs c (ground (arith, off)) (omega (arith, enough))
        (omega (arith, fits)) in
    let sum : len + 1 + length xs ≡ len + suc (length xs) = omega arith in
    rw (test, e, more) (rest ∙ ap some sum)

-- On a list, rt_list_isempty tells whether it has no node, and rt_list_len counts its nodes, where there are
-- fewer than 2^32; more fuel than nodes is enough.
pub list_len-length :
    (s : Links) (fuel l : ℕ) (nodes : List ℕ)
    → IsRing s l nodes
    → length nodes < fuel
    → length nodes < 2 ^ 32
    → (list_len fuel l s ≡ some (length nodes)) × (list_isempty l s ≡ is_empty nodes)
unfolding list_isempty
list_len-length s fuel l nodes i enough fits = (
  count_nodes-length s fuel l l 0 nodes i.path (ground (arith, i.once)) enough (omega (arith, fits))
      ∙ ap some (omega arith),
  empty nodes i.path (ground (arith, i.once)),
)
  where
    empty : (xs : List ℕ) → IsPath s l xs l → mem l xs ≡ false → (s.next l == l) ≡ is_empty xs
    empty [] (e, f) off = ground (arith, e, ==_refl l)
    empty (x ∷ xs) (e, f, c) off = ground (arith, e, off)
