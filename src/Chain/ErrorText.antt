-- ===== src/Chain/ErrorText.antt =====
-- service/evm.go: `cutErrorString`, which keeps the title of an HTML error page.
pub mod Title
use mathlib.Core.List.{append_assoc}
use ibswap_api.Common.{
  ℕ, zero, suc, ◌+◌, ◌-◌, ◌≤◌, ◌<◌, ◌≡◌, ◌≢◌, refl, sym, ap, ◌∙◌, ◌⊎◌, inl, inr, Bool, true, false,
  ◌&&◌, List, [], ◌∷◌, ◌++◌, arith, ltb, leb, ◌==◌, le→leb, if◌then◌else◌, length, length-append,
  take, drop, length-take, length-drop, Bool-cases,
}
use ibswap_api.Common.Int.{ℤ, pos, negsuc, pos_part, neg_part, ◌+ℤ◌, ltb_ℤ}
use ibswap_api.Common.Eq.{Text, codes}
use ibswap_api.Common.Outcome.{Outcome, ok, panic}
use ibswap_api.Chain.Types.{slice}
use ibswap_api.Chain.Slices.{slice_middle}

-- `strings.HasPrefix(s, prefix)`
unfoldable pub has_prefix : Text → Text → Bool
has_prefix s [] = true
has_prefix [] (p ∷ ps) = false
has_prefix (c ∷ cs) (p ∷ ps) = c == p && has_prefix cs ps

-- `strings.Index(s, sub)`, counted from `i`: -1 if there is none.
index_from : ℕ → Text → Text → ℤ
index_from i [] sub = if has_prefix [] sub then pos i else negsuc 0
index_from i (c ∷ cs) sub = if has_prefix (c ∷ cs) sub then pos i else index_from (suc i) cs sub

unfoldable pub index : Text → Text → ℤ
unfolding index_from has_prefix
index s sub = index_from 0 s sub

abbrev pub open_tag : Text
open_tag = codes "<title>"

abbrev pub close_tag : Text
close_tag = codes "</title>"

-- The part between two positions, as the code guards it.
cut : Text → ℤ → ℤ → Outcome Text
cut str bi ei =
    if ltb_ℤ bi (pos (length str)) && ltb_ℤ ei (pos (length str)) && ltb_ℤ bi ei
    then slice (pos_part bi) (pos_part ei) str
    else ok str

-- `cutErrorString`
unfoldable pub cut_error_string : Text → Outcome Text
unfolding cut index
cut_error_string str = cut str (index str open_tag +ℤ pos 7) (index str close_tag)
