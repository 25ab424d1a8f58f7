-- ===== src/Llm/Fences.antt =====
-- `strip_json_fences` of src/llm/base.py, which takes a Markdown fence off an answer.
use mathlib.Core.List.{reverse, reverse-append, reverse-reverse}
use property_management_lead.Common.{
  ℕ, ◌≡◌, refl, sym, ap, ◌∙◌, Bool, true, false, not, ◌||◌, [], ◌∷◌, ◌++◌, length, drop, all,
  all-reverse, has_infix, starts_with, strip, strip_left, Text, codes, if◌then◌else◌, arith,
}

abbrev pub fence : Text
fence = codes "```"

abbrev pub json_fence : Text
json_fence = codes "```json"

-- `s.removeprefix(p)`
unfoldable pub removeprefix : Text → Text → Text
removeprefix s p = if starts_with s p then drop (length p) s else s

-- `s[: s.rindex(p)]`, for a `p` in `s`
unfoldable pub before_last : Text → Text → Text
before_last [] p = []
before_last (c ∷ s) p = let rest = before_last s p in if has_infix s p then c ∷ rest else []

unfenced : Text → Text
unfenced s = if has_infix s fence then before_last s fence else s

unfoldable pub strip_json_fences : (ℕ → Bool) → Text → Text
unfolding unfenced
strip_json_fences is_space raw =
    let cleaned = strip is_space raw in
    if starts_with cleaned fence
    then strip is_space (unfenced (removeprefix (removeprefix cleaned json_fence) fence))
    else cleaned

has_infix-fence : (body : Text) → has_infix (body ++ fence) fence ≡ true
unfolding has_infix starts_with
has_infix-fence [] = refl
has_infix-fence (c ∷ body) = ground (arith, has_infix-fence body)

before_last-fence : (body : Text) → before_last (body ++ fence) fence ≡ body
unfolding before_last has_infix starts_with
before_last-fence [] = refl
before_last-fence (c ∷ body) = rw (has_infix-fence body, before_last-fence body) refl

removeprefix_none : (s p : Text) → starts_with s p ≡ false → removeprefix s p ≡ s
unfolding removeprefix
removeprefix_none s p h = rw h refl

-- A text in a fence, which names JSON as its language or nothing.
abbrev pub fenced : Bool → Text → Text
fenced is_named body = (if is_named then json_fence else fence) ++ (body ++ fence)

-- A text that a fence leaves apart from itself: it starts with no backtick, and behind a plain fence
-- not with `json`.
abbrev pub IsApart : Bool → Text → Type 0
IsApart is_named body =
    (starts_with body (codes "`") ≡ false)
    × ((is_named || not (starts_with body (codes "json"))) ≡ true)

-- A body that does not start with `json` does not make a plain fence one that names JSON.
starts_with-append :
    (body : Text)
    → not (starts_with body (codes "json")) ≡ true
    → starts_with (fence ++ (body ++ fence)) json_fence ≡ false
unfolding starts_with
starts_with-append [] h = refl
starts_with-append (c ∷ []) h = ground arith
starts_with-append (c ∷ d ∷ []) h = ground arith
starts_with-append (c ∷ d ∷ e ∷ []) h = ground arith
starts_with-append (c ∷ d ∷ e ∷ f ∷ body) h = ground arith

unfenced-fenced :
    (is_named : Bool) (body : Text)
    → IsApart is_named body
    → unfenced (removeprefix (removeprefix (fenced is_named body) json_fence) fence) ≡ body
unfolding unfenced removeprefix starts_with has_infix before_last
unfenced-fenced true [] h = refl
unfenced-fenced false [] h = refl
unfenced-fenced true (c ∷ body) (plain, named) =
    let apart : starts_with (c ∷ (body ++ fence)) fence ≡ false = ground arith in
    simp (
      removeprefix_none (c ∷ (body ++ fence)) fence apart,
      has_infix-fence (c ∷ body),
      before_last-fence (c ∷ body),
    )
unfenced-fenced false (c ∷ body) (plain, named) =
    let unnamed : starts_with (fence ++ (c ∷ (body ++ fence))) json_fence ≡ false =
      starts_with-append (c ∷ body) named in
    simp (
      removeprefix_none (fence ++ (c ∷ (body ++ fence))) json_fence unnamed,
      has_infix-fence (c ∷ body),
      before_last-fence (c ∷ body),
    )

module _ (is_space : ℕ → Bool) where
  strip_left-append :
      (ws s : Text) → all is_space ws ≡ true → strip_left is_space (ws ++ s) ≡ strip_left is_space s
  unfolding strip_left all
  strip_left-append [] s h = refl
  strip_left-append (c ∷ ws) s h = ground (arith, strip_left-append ws s)

  strip_left_same : (c : ℕ) (s : Text) → is_space c ≡ false → strip_left is_space (c ∷ s) ≡ c ∷ s
  unfolding strip_left
  strip_left_same c s h = rw h refl

  -- White space around a text that neither starts nor ends with any.
  strip-around :
      (ws ws' : Text) (c d : ℕ) (s : Text)
      → all is_space ws ≡ true
      → all is_space ws' ≡ true
      → is_space c ≡ false
      → is_space d ≡ false
      → (s' : Text) → reverse (c ∷ s) ≡ d ∷ s'
      → strip is_space (ws ++ ((c ∷ s) ++ ws')) ≡ c ∷ s
  unfolding strip
  strip-around ws ws' c d s space space' first last s' ends =
      ap (λ (t : Text). reverse (strip_left is_space (reverse t)))
        (strip_left-append ws ((c ∷ s) ++ ws') space ∙ strip_left_same c (s ++ ws') first)
      ∙ ap (λ (t : Text). reverse (strip_left is_space t)) (reverse-append (c ∷ s) ws')
      ∙ ap reverse
          (strip_left-append (reverse ws') (reverse (c ∷ s)) (all-reverse is_space ws' ∙ space'))
      ∙ ap (λ (t : Text). reverse (strip_left is_space t)) ends
      ∙ ap reverse (strip_left_same d s' last ∙ sym ends)
      ∙ reverse-reverse (c ∷ s)

  -- A fence around an answer, with any white space around that, is taken off, where the answer
  -- stands apart from it and no backtick is white space: what is left is the answer, stripped.
  pub strip_json_fences-fenced :
      (is_named : Bool) (ws ws' body : Text)
      → all is_space ws ≡ true
      → all is_space ws' ≡ true
      → is_space 96 ≡ false
      → IsApart is_named body
      → strip_json_fences is_space (ws ++ (fenced is_named body ++ ws')) ≡ strip is_space body
  unfolding strip_json_fences starts_with
  strip_json_fences-fenced true ws ws' body space space' backtick apart =
      let stripped : strip is_space (ws ++ (fenced true body ++ ws')) ≡ fenced true body =
        strip-around ws ws' 96 96 (drop 1 (fenced true body)) space space' backtick backtick
          (drop 1 (reverse fence ++ reverse (json_fence ++ body)))
          (reverse-append (json_fence ++ body) fence) in
      rw stripped (rw (unfenced-fenced true body apart) refl)
  strip_json_fences-fenced false ws ws' body space space' backtick apart =
      let stripped : strip is_space (ws ++ (fenced false body ++ ws')) ≡ fenced false body =
        strip-around ws ws' 96 96 (drop 1 (fenced false body)) space space' backtick backtick
          (drop 1 (reverse fence ++ reverse (fence ++ body)))
          (reverse-append (fence ++ body) fence) in
      rw stripped (rw (unfenced-fenced false body apart) refl)
