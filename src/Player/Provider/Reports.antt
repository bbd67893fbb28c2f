-- ===== src/Player/Provider/Reports.antt =====
-- Lists of reports, and sets of indexes of which some are dropped.
use readflow.Common.{
  ℕ, ◌≡◌, refl, Bool, true, false, not, ◌&&◌, ◌||◌, some, String, List, [], ◌∷◌, ◌++◌, str_eq,
  arith, get_elem?, length, ◌==◌, suc, zero,
}
use readflow.Common.Sets.{has, delete, nat_eq}
use readflow.Player.Provider.{Report, delete_all}

-- A report of the job that lists the index is among these.
abbrev pub delivered : String → ℕ → List Report → Bool
delivered j i [] = false
delivered j i (r ∷ rs) = (str_eq r.job_id j && has i r.heard) || delivered j i rs

-- All reports are about the job.
abbrev pub are_about : String → List Report → Bool
are_about j [] = true
are_about j (r ∷ rs) = str_eq r.job_id j && are_about j rs

pub are_about-append :
    (j : String) (rs ss : List Report)
    → are_about j rs ≡ true
    → are_about j ss ≡ true
    → are_about j (rs ++ ss) ≡ true
are_about-append j [] ss a b = b
are_about-append j (r ∷ rs) ss a b = ground (arith, are_about-append j rs ss)

pub are_about-get_elem :
    (j : String) (rs : List Report) (n : ℕ) (r : Report)
    → are_about j rs ≡ true
    → get_elem? rs n ≡ some r
    → str_eq r.job_id j ≡ true
are_about-get_elem j [] n r a e = ground arith
are_about-get_elem j (s ∷ rs) zero r a e = ground arith
are_about-get_elem j (s ∷ rs) (suc n) r a e = are_about-get_elem j rs n r (ground arith) e

pub delivered-append :
    (j : String) (i : ℕ) (rs ss : List Report)
    → delivered j i (rs ++ ss) ≡ (delivered j i rs || delivered j i ss)
delivered-append j i [] ss = refl
delivered-append j i (r ∷ rs) ss = ground (arith, delivered-append j i rs ss)

has-delete : (i a : ℕ) (xs : List ℕ) → has i (delete a xs) ≡ (has i xs && not (a == i))
has-delete i a [] = refl
has-delete i a (x ∷ xs) = ground (arith, has-delete i a xs)

pub has-delete_all :
    (i : ℕ) (dropped xs : List ℕ)
    → has i (delete_all dropped xs) ≡ (has i xs && not (has i dropped))
has-delete_all i [] xs = ground arith
has-delete_all i (a ∷ dropped) xs =
    ground (arith, has-delete_all i dropped (delete a xs), has-delete i a xs)

pub get_elem-length :
    (rs : List Report) (r : Report) → get_elem? (rs ++ r ∷ []) (length rs) ≡ some r
get_elem-length [] r = refl
get_elem-length (s ∷ rs) r = get_elem-length rs r
