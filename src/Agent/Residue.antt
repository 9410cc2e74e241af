-- ===== src/Agent/Residue.antt =====
-- src/llamaste/agent.cpp: `strip_tool_call_residue`, the filter in front of what the user sees.
-- `cut` of the prelude stands for `find` and the two `substr` around it.
use mathlib.Core.List.{append_assoc}
use llamaste.Prelude.{
  ℕ, zero, suc, ◌<◌, ◌≡◌, refl, sym, ap, ◌∙◌, none, some, [], ◌∷◌, ◌++◌, Bytes, codes, length,
  length-append, cut, cut_sound, cut-none, arith, Bool-cases, Option-cases, inl, inr,
}
use llamaste.Text.{is_blank, trim_left, trim_cons, trim_right}

abbrev pub opening : Bytes
opening = codes "<tool_call>"

abbrev pub closing : Bytes
closing = codes "</tool_call>"

-- What is put out for the text around one block, given what the rest behind it becomes.
unfoldable pub strip_blocks : ℕ → Bytes → Bytes
strip_blocks zero text = text
strip_blocks (suc f) text = elim (cut (codes "<tool_call>") text) [
  | none ↦ text
  | some (before, rest) ↦ elim (cut (codes "</tool_call>") rest) [
    | none ↦ before
    | some (_, after) ↦ before ++ strip_blocks f after
  ]
]

-- `while ((st = out.find(END)) != npos) out.erase(st, END.size())`
unfoldable pub erase_closers : ℕ → Bytes → Bytes
erase_closers zero out = out
erase_closers (suc f) out = elim (cut (codes "</tool_call>") out) [
  | none ↦ out
  | some (before, after) ↦ erase_closers f (before ++ after)
]

-- A round takes at least the twelve bytes of a tag away, so the length is enough fuel.
unfoldable pub strip_tool_call_residue : Bytes → Bytes
strip_tool_call_residue text =
    let out : Bytes = strip_blocks (suc (length text)) text in
    trim_right (trim_left (erase_closers (suc (length out)) out))

erase_closers_done :
    (f : ℕ) (out : Bytes) → cut (codes "</tool_call>") out ≡ none → erase_closers (suc f) out ≡ out
unfolding erase_closers
erase_closers_done f out e = rw (e, erase_closers) refl

erase_closers_more :
    (f : ℕ) (out b a : Bytes)
    → cut (codes "</tool_call>") out ≡ some (b, a)
    → erase_closers (suc f) out ≡ erase_closers f (b ++ a)
unfolding erase_closers
erase_closers_more f out b a e = rw (e, erase_closers) refl

-- With that fuel no closing tag is left.
erase_closers-none :
    (f : ℕ) (out : Bytes) → length out < f → cut (codes "</tool_call>") (erase_closers f out) ≡ none
erase_closers-none zero out h = absurd (omega arith)
erase_closers-none (suc f) out h = elim (Option-cases (cut (codes "</tool_call>") out)) [
  | inl e ↦ rw (erase_closers_done f out e) e
  | inr ((b, a), e) ↦ rw (erase_closers_more f out b a e) (
      erase_closers-none f (b ++ a) (shorter f out b a (cut_sound closing out {b = b} {a = a} e) h))
]
  where
    shorter :
        (f : ℕ) (out b a : Bytes)
        → out ≡ b ++ (closing ++ a)
        → length out < suc f
        → length (b ++ a) < f
    shorter f out b a e h =
        omega (arith, length-append b a, length-append b (closing ++ a), ap length e)

trim_left_split : (t : Bytes) → (l : Bytes) × (t ≡ l ++ trim_left t)
unfolding trim_left
trim_left_split [] = ([], refl)
trim_left_split (c ∷ cs) = elim (Bool-cases (is_blank c)) [
  | inl e ↦ let (l, p) = trim_left_split cs in (c ∷ l, rw e (ap (λ (r : Bytes). c ∷ r) p))
  | inr e ↦ ([], rw e refl)
]

trim_cons_split : (c : ℕ) (s r : Bytes) → (r' : Bytes) × (c ∷ (s ++ r) ≡ trim_cons c s ++ r')
trim_cons_split c [] r = elim (Bool-cases (is_blank c)) [
  | inl e ↦ (c ∷ r, rw e refl)
  | inr e ↦ (r, rw e refl)
]
trim_cons_split c (d ∷ ds) r = (r, refl)

trim_right_split : (t : Bytes) → (r : Bytes) × (t ≡ trim_right t ++ r)
unfolding trim_right
trim_right_split [] = ([], refl)
trim_right_split (c ∷ cs) =
    let (r, p) = trim_right_split cs in
    let (r', q) = trim_cons_split c (trim_right cs) r in (r', ap (λ (x : Bytes). c ∷ x) p ∙ q)

-- What does not occur in a text does not occur in a part of it.
cut-none_part : (n l t r : Bytes) → cut n (l ++ (t ++ r)) ≡ none → cut n t ≡ none
cut-none_part n l t r h = elim (Option-cases (cut n t)) [
  | inl e ↦ e
  | inr ((b, a), e) ↦ absurd (
      cut-none n (l ++ b) (a ++ r)
        (ap (cut n) (sym (parts n l t r b a (cut_sound n t {b = b} {a = a} e))) ∙ h))
]
  where
    parts : (n l t r b a : Bytes) → t ≡ b ++ (n ++ a) → l ++ (t ++ r) ≡ (l ++ b) ++ (n ++ (a ++ r))
    parts n l t r b a e = rw e (simp append_assoc)

-- The text that `strip_tool_call_residue` returns contains no `</tool_call>`, whatever text it is
-- given.
pub strip_tool_call_residue-closing :
    (text : Bytes) → cut closing (strip_tool_call_residue text) ≡ none
unfolding strip_tool_call_residue
strip_tool_call_residue-closing text =
    let out : Bytes = strip_blocks (suc (length text)) text in
    let erased : Bytes = erase_closers (suc (length out)) out in
    let (l, p) = trim_left_split erased in
    let (r, q) = trim_right_split (trim_left erased) in
    cut-none_part closing l (trim_right (trim_left erased)) r (
      ap (cut closing) (sym (p ∙ ap (λ (x : Bytes). l ++ x) q))
      ∙ erase_closers-none (suc (length out)) out (omega arith))
