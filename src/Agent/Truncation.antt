-- ===== src/Agent/Truncation.antt =====
-- src/llamaste/agent.cpp: what a truncation keeps.

use llamaste.Agent.{
  ToolCall, Message, ConversationState, is_tool, calls_tools, drop_tools, drop_orphans,
  truncate_messages, truncate,
}
use llamaste.Prelude.{
  ℕ, zero, suc, ◌-◌, ◌≤◌, ◌<◌, ◌≡◌, refl, sym, ◌⊎◌, inl, inr, true, false, List, [], ◌∷◌, ◌++◌, leb,
  if◌then◌else◌, length, take, drop, take-append-drop, length-drop, pos_part, ℤ, All, arith,
  Bool-cases,
}

-- The message has the id and the tool's name of one of the calls.
abbrev pub Answers : Message → List ToolCall → Type 0
Answers m [] = ⊥
Answers m (tc ∷ tcs) = ((m.tool_call_id ≡ tc.id) × (m.name ≡ tc.name)) ⊎ Answers m tcs

-- The calls that results behind `m` may answer.
abbrev pub open_calls : List ToolCall → Message → List ToolCall
open_calls before m = if is_tool m then before else if calls_tools m then m.tool_calls else []

-- Every tool result answers one of the calls of the assistant's message in front, with results only
-- in between. Results at the front answer one of `before`.
abbrev pub IsPaired : List ToolCall → List Message → Type 0
IsPaired before [] = Unit
IsPaired before (m ∷ ms) =
    ((is_tool m ≡ false) ⊎ Answers m before) × IsPaired (open_calls before m) ms

-- The first message, if there is one, is neither a tool result nor an assistant's calls.
abbrev pub StartsClean : List Message → Type 0
StartsClean [] = Unit
StartsClean (m ∷ ms) = (is_tool m ≡ false) × (calls_tools m ≡ false)

-- A message that may not stand at the front.
abbrev pub IsOrphan : Message → Type 0
IsOrphan m = (is_tool m ≡ true) ⊎ (calls_tools m ≡ true)

-- All messages if there are at most `limit`; else the newest `limit`, less those at their front that
-- may not stand there.
abbrev pub IsTruncated : ℕ → List Message → List Message → Type 0
IsTruncated limit ms kept =
    ((length ms ≤ limit) × (kept ≡ ms))
    ⊎ ((limit < length ms)
        × ((old : List Message) × ((orphans : List Message) × ((ms ≡ old ++ (orphans ++ kept))
                × ((length (orphans ++ kept) ≡ limit)
                    × (All IsOrphan orphans × StartsClean kept))))))

-- What `drop_tools` and `drop_orphans` take off.
abbrev Drops : List Message → List Message → Type 0
Drops ms kept = (orphans : List Message) × ((ms ≡ orphans ++ kept) × All IsOrphan orphans)

Drops-cons :
    (m : Message) (ms kept : List Message) → IsOrphan m → Drops ms kept → Drops (m ∷ ms) kept
Drops-cons m ms kept h (orphans, (e, a)) = (m ∷ orphans, (rw e refl, (h, a)))

Drops-Drops : (a b c : List Message) → Drops a b → Drops b c → Drops a c
Drops-Drops a b c ([], (e, h)) r = rw e r
Drops-Drops a b c (m ∷ ms, (e, h)) r =
    rw e (Drops-cons m (ms ++ b) c h.0 (Drops-Drops (ms ++ b) b c (ms, (refl, h.1)) r))

drop_tools-Drops : (ms : List Message) → Drops ms (drop_tools ms)
unfolding drop_tools
drop_tools-Drops [] = ([], (refl, tt))
drop_tools-Drops (m ∷ ms) = elim (Bool-cases (is_tool m)) [
  | inl e ↦ rw e (Drops-cons m ms (drop_tools ms) (inl e) (drop_tools-Drops ms))
  | inr e ↦ rw e ([], (refl, tt))
]

drop_tools-IsPaired :
    (before : List ToolCall) (ms : List Message)
    → IsPaired before ms
    → IsPaired before (drop_tools ms)
unfolding drop_tools
drop_tools-IsPaired before [] p = tt
drop_tools-IsPaired before (m ∷ ms) p = elim (Bool-cases (is_tool m)) [
  | inl e ↦ rw e (drop_tools-IsPaired before ms (rw e at p.1))
  | inr e ↦ rw e p
]

length-drop_tools : (ms : List Message) → length (drop_tools ms) ≤ length ms
unfolding drop_tools
length-drop_tools [] = omega arith
length-drop_tools (m ∷ ms) = ground (arith, length-drop_tools ms)

-- Without its orphans a list is paired by itself, starts clean, and lost orphans only.
abbrev IsCleaned : List Message → List Message → Type 0
IsCleaned ms kept = IsPaired [] kept × (StartsClean kept × Drops ms kept)

drop_orphans-IsCleaned :
    (f : ℕ) (before : List ToolCall) (ms : List Message)
    → length ms ≤ f
    → IsPaired before ms
    → IsCleaned ms (drop_orphans f ms)
unfolding drop_orphans
drop_orphans-IsCleaned zero b [] h p = (tt, (tt, ([], (refl, tt))))
drop_orphans-IsCleaned zero b (m ∷ ms) h p = absurd (omega arith)
drop_orphans-IsCleaned (suc f) b [] h p = (tt, (tt, ([], (refl, tt))))
drop_orphans-IsCleaned (suc f) b (m ∷ ms) h p = elim (Bool-cases (is_tool m)) [
  | inl e ↦
      let (q, (c, d)) = drop_orphans-IsCleaned f b ms (omega arith) (rw e at p.1) in
      rw e (q, (c, Drops-cons m ms (drop_orphans f ms) (inl e) d))
  | inr e ↦ elim (Bool-cases (calls_tools m)) [
    | inl c ↦
        let rest : IsPaired m.tool_calls ms = rw (e, c) at p.1 in
        let (q, (s, d)) =
          drop_orphans-IsCleaned f m.tool_calls (drop_tools ms)
            (omega (arith, length-drop_tools ms)) (drop_tools-IsPaired m.tool_calls ms rest) in
        rw (e, c)
          (
            q,
            (
              s,
              Drops-cons m ms (drop_orphans f (drop_tools ms)) (inr c) (
                  Drops-Drops ms (drop_tools ms) (drop_orphans f (drop_tools ms))
                    (drop_tools-Drops ms) d),
            ),
          )
    | inr c ↦ rw (e, c) ((inl e, rw (e, c) (rw (e, c) at p.1)), ((e, c), ([], (refl, tt))))
  ]
]

drop-IsPaired :
    (n : ℕ) (before : List ToolCall) (ms : List Message)
    → IsPaired before ms
    → (calls : List ToolCall) × IsPaired calls (drop n ms)
drop-IsPaired zero before ms p = (before, p)
drop-IsPaired (suc n) before [] p = (before, tt)
drop-IsPaired (suc n) before (m ∷ ms) p = drop-IsPaired n (open_calls before m) ms p.1

truncate_messages-IsTruncated :
    (limit : ℕ) (ms : List Message)
    → IsPaired [] ms
    → IsPaired [] (truncate_messages limit ms) × IsTruncated limit ms (truncate_messages limit ms)
unfolding truncate_messages
truncate_messages-IsTruncated limit ms p = elim (Bool-cases (leb (length ms) limit)) [
  | inl e ↦ rw e (p, inl (ground (arith, e), refl))
  | inr e ↦
      let n : ℕ = length ms - limit in
      let recent : List Message = drop n ms in
      let (calls, q) = drop-IsPaired n [] ms p in
      let (r, (c, (orphans, (f, a)))) =
        drop_orphans-IsCleaned (length recent) calls recent (omega arith) q in
      let long : limit < length ms = ground (arith, e) in
      let kept : List Message = drop_orphans (length recent) recent in
      let size : length (orphans ++ kept) ≡ limit =
        rw (sym f) (omega (arith, length-drop n ms, long)) in
      let parts : ms ≡ take n ms ++ (orphans ++ kept) = rw (sym f) (sym (take-append-drop n ms)) in
      rw e (r, inr (long, (take n ms, (orphans, (parts, (size, (a, c)))))))
]

-- A conversation in which every tool result has the id and the tool's name of one of the calls it
-- stands behind keeps that property under a truncation, which leaves the system prompt as it was.
-- If there are at most `max_messages` messages (none for a negative number) all are kept; else the
-- newest `max_messages` are, less the tools' results and requests for tools at their front, so that
-- the first one left, if any, is neither.
pub truncate-IsPaired :
    (max_messages : ℤ) (c : ConversationState)
    → IsPaired [] c.messages
    → let c' = truncate max_messages c in
      IsPaired [] c'.messages
      × IsTruncated (pos_part max_messages) c.messages c'.messages
      × (c'.system_prompt ≡ c.system_prompt)
unfolding truncate
truncate-IsPaired max_messages c p =
    let (q, t) = truncate_messages-IsTruncated (pos_part max_messages) c.messages p in (q, t, refl)
