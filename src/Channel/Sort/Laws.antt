-- ===== src/Channel/Sort/Laws.antt =====
-- The order of texts is total, and sorting forgets the order that its input came in.
use mathlib.Core.List.{Permᴰ}
use Prim.Native.Nat.{Ordering}
use Prim.Native.String.{compare}
use Prim.Native.String.compare
use text.Mathlib.TextEquality.{path_by_compare}
use grpc_php_rs.Common.{◌≡◌, refl, ◌∙◌, ap, true, false, String, List, [], ◌∷◌, arith}
use grpc_php_rs.Channel.Sort.{str_leb, insert, sort}

abbrev swap : Ordering → Ordering
swap Ordering.lt = Ordering.gt
swap Ordering.eq = Ordering.eq
swap Ordering.gt = Ordering.lt

compare-swap : (s t : String) → compare t s ≡ swap (compare s t)
compare-swap String.[] String.[] = refl
compare-swap String.[] (String.◌∷◌ d t) = cc (compare.nil-cons d t, compare.cons-nil d t)
compare-swap (String.◌∷◌ c s) String.[] = cc (compare.nil-cons c s, compare.cons-nil c s)
compare-swap (String.◌∷◌ c s) (String.◌∷◌ d t) =
    ground (arith, compare.cons-cons c d s t, compare.cons-cons d c t s, compare-swap s t)

str_leb_total : (s t : String) → str_leb s t ≡ false → str_leb t s ≡ true
str_leb_total s t h = ground (arith, compare-swap s t)

str_leb_antisymm : (s t : String) → str_leb s t ≡ true → str_leb t s ≡ true → s ≡ t
str_leb_antisymm s t h k = path_by_compare s t (ground (arith, compare-swap s t))

str_leb_trans : (s t u : String) → str_leb s t ≡ true → str_leb t u ≡ true → str_leb s u ≡ true
str_leb_trans String.[] t String.[] h k = refl
str_leb_trans String.[] t (String.◌∷◌ e u) h k = ground (arith, compare.nil-cons e u)
str_leb_trans (String.◌∷◌ c s) String.[] u h k = ground (arith, compare.cons-nil c s)
str_leb_trans (String.◌∷◌ c s) (String.◌∷◌ d t) String.[] h k = ground (arith, compare.cons-nil d t)
str_leb_trans (String.◌∷◌ c s) (String.◌∷◌ d t) (String.◌∷◌ e u) h k = ground (
  arith,
  compare.cons-cons c d s t,
  compare.cons-cons d e t u,
  compare.cons-cons c e s u,
  str_leb_trans s t u,
)

-- Two insertions commute.
insert_comm : (s t : String) (us : List String) → insert s (insert t us) ≡ insert t (insert s us)
unfolding insert
insert_comm s t [] = ground (arith, str_leb_total s t, str_leb_total t s, str_leb_antisymm s t)
insert_comm s t (u ∷ us) = ground (
  arith,
  str_leb_total s t,
  str_leb_total t s,
  str_leb_antisymm s t,
  str_leb_trans s t u,
  str_leb_trans t s u,
  insert_comm s t us,
)

sort-append_swap :
    (s t : String) (xs ys : List String) → sort xs ≡ sort ys → sort (s ∷ t ∷ xs) ≡ sort (t ∷ s ∷ ys)
unfolding sort
sort-append_swap s t xs ys h =
    ap (λ (us : List String). insert s (insert t us)) h ∙ insert_comm s t (sort ys)

-- Sorting forgets the order.
pub sort-perm : {xs ys : List String} → Permᴰ xs ys → sort xs ≡ sort ys
unfolding sort
sort-perm Permᴰ.nil = refl
sort-perm (Permᴰ.cons {a = a} {l₂ = l₂} e p) =
    ap (insert a) (sort-perm p) ∙ ap (λ b. insert b (sort l₂)) e
sort-perm (Permᴰ.swap {a = a} {b = b} {l = l} e f) = insert_comm a b (sort l) ∙ cc (e, f)
sort-perm (Permᴰ.trans p q) = sort-perm p ∙ sort-perm q
