-- ===== src/Chain/ErrorText/Title.antt =====
-- `cutErrorString` of service/evm.go: it never panics, and it finds a title.
use mathlib.Core.List.{append_assoc}
use ibswap_api.Common.{
  ℕ, suc, ◌+◌, ◌-◌, ◌≤◌, ◌<◌, ◌≡◌, refl, ap, ◌∙◌, ◌⊎◌, inl, inr, Bool, true, false, ◌&&◌, [], ◌∷◌,
  ◌++◌, arith, ltb, le→leb, length, length-append, take, drop, length-take, length-drop, Bool-cases,
}
use ibswap_api.Common.Int.{ℤ, pos, negsuc, ◌+ℤ◌, ltb_ℤ}
use ibswap_api.Common.Eq.{Text}
use ibswap_api.Common.Outcome.{ok}
use ibswap_api.Chain.Types.{slice}
use ibswap_api.Chain.ErrorText.{
  has_prefix, index_from, index, open_tag, close_tag, cut, cut_error_string,
}
use ibswap_api.Chain.Slices.{slice_middle}

-- Whatever the positions, what is cut out is in range.
cut-ok :
    (str : Text) (b : ℕ) (ei : ℤ)
    → (t : Text) × (cut str (pos b) ei ≡ ok t) × (length t ≤ length str)
unfolding cut
cut-ok str b (negsuc k) = (str, whole, omega arith)
  where
    whole : cut str (pos b) (negsuc k) ≡ ok str
    whole = ground arith
cut-ok str b (pos d) = elim (Bool-cases (ltb b (length str) && ltb d (length str) && ltb b d)) [
  | inl e ↦
      let lo : b ≤ d = ground arith in
      let hi : d ≤ length str = ground arith in
      (take (d - b) (drop b str), rw (tests e) (inside lo hi), shorter)
  | inr o ↦ (str, rw (tests o) refl, omega arith)
]
  where
    tests :
        {v : Bool}
        → (ltb b (length str) && ltb d (length str) && ltb b d) ≡ v
        → (ltb_ℤ (pos b) (pos (length str))
            && ltb_ℤ (pos d) (pos (length str))
            && ltb_ℤ (pos b) (pos d))
          ≡ v
    tests e = ground arith

    inside : b ≤ d → d ≤ length str → slice b d str ≡ ok (take (d - b) (drop b str))
    inside lo hi = unfold slice in rw (le→leb b d lo, le→leb d (length str) hi)

    shorter : length (take (d - b) (drop b str)) ≤ length str
    shorter = omega (arith, length-take (d - b) (drop b str), length-drop b str)

-- -1 or a position.
index_from-cases :
    (i : ℕ) (s sub : Text)
    → (index_from i s sub ≡ negsuc 0) ⊎ ((k : ℕ) × (index_from i s sub ≡ pos k))
unfolding index_from
index_from-cases i [] sub = elim (Bool-cases (has_prefix [] sub)) [
  | inl e ↦ inr (i, rw e refl)
  | inr e ↦ inl (rw e refl)
]
index_from-cases i (c ∷ cs) sub = elim (Bool-cases (has_prefix (c ∷ cs) sub)) [
  | inl e ↦ inr (i, rw e refl)
  | inr e ↦ rw e (index_from-cases (suc i) cs sub)
]

-- Within range, the part is cut.
cut_middle :
    (str : Text) (lo hi : ℕ) (t : Text)
    → hi < length str
    → lo < length str
    → lo < hi
    → slice lo hi str ≡ ok t
    → cut str (pos lo) (pos hi) ≡ ok t
unfolding cut
cut_middle str lo hi t h k l part = rw guards part
  where
    guards :
        (ltb_ℤ (pos lo) (pos (length str))
          && ltb_ℤ (pos hi) (pos (length str))
          && ltb_ℤ (pos lo) (pos hi))
        ≡ true
    guards = ground arith

plus_seven : (k : ℕ) → pos k +ℤ pos 7 ≡ pos (k + 7)
unfolding ◌+ℤ◌
plus_seven k = ground arith

-- No part is asked for out of range, so no error text makes the function panic; and what it gives
-- is never longer than the text.
pub cut_error_string-ok :
    (str : Text) → (t : Text) × (cut_error_string str ≡ ok t) × (length t ≤ length str)
unfolding cut_error_string index ◌+ℤ◌
cut_error_string-ok str = elim (index_from-cases 0 str open_tag) [
  | inl e ↦ rw e (cut-ok str 6 (index_from 0 str close_tag))
  | inr (k, e) ↦ rw e (at_position k)
]
  where
    at_position :
        (k : ℕ)
        → (t : Text) × (cut str (pos k +ℤ pos 7) (index_from 0 str close_tag) ≡ ok t)
          × (length t ≤ length str)
    at_position k = rw (plus_seven k) (cut-ok str (k + 7) (index_from 0 str close_tag))

-- `sub` does not begin at any of the first positions, as many as `before` is long.
abbrev pub NoneIn : Text → Text → Text → Type 0
NoneIn before rest sub =
    (i : ℕ) → i < length before → has_prefix (drop i (before ++ rest)) sub ≡ false

index_from-first :
    (k : ℕ) (before rest sub : Text)
    → NoneIn before rest sub
    → has_prefix rest sub ≡ true
    → index_from k (before ++ rest) sub ≡ pos (k + length before)
unfolding index_from
index_from-first k [] [] sub none_in here = rw here (ap pos (omega arith))
index_from-first k [] (c ∷ cs) sub none_in here = rw here (ap pos (omega arith))
index_from-first k (c ∷ before) rest sub none_in here = rw (none_in 0 (omega arith)) (
    index_from-first (suc k) before rest sub (λ i h. none_in (suc i) (omega arith)) here
    ∙ ap pos (omega arith))

has_prefix-append : (sub rest : Text) → has_prefix (sub ++ rest) sub ≡ true
unfolding has_prefix
has_prefix-append [] rest = refl
has_prefix-append (c ∷ sub) rest = ground (arith, has_prefix-append sub rest)

-- Of a page with a title that is not empty, and in which neither tag begins earlier, the title is what
-- is left.
pub cut_error_string-title :
    (before title after : Text)
    → 0 < length title
    → NoneIn before (open_tag ++ (title ++ (close_tag ++ after))) open_tag
    → NoneIn (before ++ (open_tag ++ title)) (close_tag ++ after) close_tag
    → cut_error_string (before ++ (open_tag ++ (title ++ (close_tag ++ after)))) ≡ ok title
unfolding cut_error_string index
cut_error_string-title before title after some_title no_open no_close =
    rw (opened, closed, plus_seven (length before))
      (cut_middle str (length before + 7) (length before + 7 + length title) title fits
        (omega (arith, fits)) (omega arith) part)
  where
    str : Text
    str = before ++ (open_tag ++ (title ++ (close_tag ++ after)))

    opened : index_from 0 str open_tag ≡ pos (length before)
    opened =
        index_from-first 0 before (open_tag ++ (title ++ (close_tag ++ after))) open_tag no_open
          (has_prefix-append open_tag (title ++ (close_tag ++ after)))
        ∙ ap pos (omega arith)

    regroup : str ≡ (before ++ (open_tag ++ title)) ++ (close_tag ++ after)
    regroup = simp append_assoc

    closed : index_from 0 str close_tag ≡ pos (length before + 7 + length title)
    closed =
        ap (λ (t : Text). index_from 0 t close_tag) regroup
        ∙ index_from-first 0 (before ++ (open_tag ++ title)) (close_tag ++ after) close_tag no_close
            (has_prefix-append close_tag after)
        ∙ ap pos
            (omega (arith, length-append before (open_tag ++ title), length-append open_tag title))

    fits : length before + 7 + length title < length str
    fits = omega (
      arith,
      ap length regroup,
      length-append (before ++ (open_tag ++ title)) (close_tag ++ after),
      length-append before (open_tag ++ title),
      length-append open_tag title,
      length-append close_tag after,
    )

    part : slice (length before + 7) (length before + 7 + length title) str ≡ ok title
    part =
        ap (slice (length before + 7) (length before + 7 + length title)) (simp append_assoc)
        ∙ slice_middle (length before + 7) (length before + 7 + length title) (before ++ open_tag)
            title (close_tag ++ after) (omega (arith, length-append before open_tag)) (omega arith)
            (omega arith)
