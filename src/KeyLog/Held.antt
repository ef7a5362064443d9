-- ===== src/KeyLog/Held.antt =====
-- What a key event does to the tracked keys and to the log: src/guaclog/state.c.
use guacenc.Base.{
  ℕ, ◌<◌, ◌≡◌, refl, sym, ◌∙◌, inl, inr, Bool, true, some, List, [], ◌++◌, append-nil, arith,
  if◌then◌else◌, Bool-cases, Option-cases, length,
}
use mathlib.Core.Option.{none-ne-some, some_inj}
use guacenc.Base.Int.{ℤ}
use guacenc.KeyLog.{
  Libc, State, max_keys, trim_keys, same_keysym, log_entry, keydef_alloc, update_key,
}
use guacenc.KeyLog.Tracking.{is_down}
use guacenc.KeyLog.Trimming.{is_down-trim}
use guacenc.KeyLog.Adding.{IsTracking, add_key_lem}

-- What an event has kept, for an equal state.
kept :
    (output : List ℕ) (next state' : State) (text : List ℕ)
    → IsTracking next.keys
    → next.output ≡ output ++ text
    → next ≡ state'
    → IsTracking state'.keys × ((text : List ℕ) × (state'.output ≡ output ++ text))
kept output next state' text t o e = rw (← e) (t, (text, o))

module _ (libc : Libc) where
  -- A key event keeps the tracked keys in order: no keysym is tracked twice, all are modifiers, the last
  -- of them is pressed and there are at most 256; and it only appends to the log.
  pub update_key-IsTracking :
      (state state' : State) (keysym : ℤ) (pressed : Bool)
      → IsTracking state.keys
      → update_key libc state keysym pressed ≡ some state'
      → IsTracking state'.keys × ((text : List ℕ) × (state'.output ≡ state.output ++ text))
  unfolding update_key
  update_key-IsTracking state state' keysym pressed t e =
      let d = keydef_alloc libc keysym in
      elim (Bool-cases d.modifier) [
        | inl m ↦ elim (add_key_lem state.keys d pressed m t) [
          | inl (full, many, new) ↦
              let same : some state ≡ some state' = rw (update_key, m, full) at e in
              kept state.output state state' [] t (sym (append-nil state.output)) (some_inj.0 same)
          | inr (keys', added, tracking, held) ↦
              let next = record state { keys = trim_keys keys' } in
              let same : some next ≡ some state' = rw (update_key, m, added) at e in
              kept state.output next state' [] tracking (sym (append-nil state.output))
                (some_inj.0 same)
        ]
        | inr m ↦ elim (Bool-cases pressed) [
          | inr up ↦
              let same : some state ≡ some state' = rw (update_key, m, up) at e in
              kept state.output state state' [] t (sym (append-nil state.output)) (some_inj.0 same)
          | inl down ↦ elim (Option-cases (log_entry state.keys d)) [
            | inl bad ↦ absurd (none-ne-some state' (rw (update_key, m, down, bad) at e))
            | inr (text, good) ↦
                let next = record state { output = state.output ++ text } in
                let same : some next ≡ some state' = rw (update_key, m, down, good) at e in
                kept state.output next state' text t refl (some_inj.0 same)
          ]
        ]
      ]

  -- On tracked keys in order, fewer than 256, an event of a modifier that its definition
  -- names by its own keysym is handled, logs nothing, and says from then on whether that key
  -- is held down; whether any other key is held down is as before.
  pub update_key-is_down :
      (state : State) (keysym : ℤ) (pressed : Bool)
      → IsTracking state.keys
      → length state.keys < max_keys
      → (keydef_alloc libc keysym).modifier ≡ true
      → (keydef_alloc libc keysym).keysym ≡ keysym
      → (state' : State) × (update_key libc state keysym pressed ≡ some state')
        × (state'.output ≡ state.output)
        × ((s : ℤ)
            → is_down s state'.keys
              ≡ (if same_keysym keysym s then pressed else is_down s state.keys))
  unfolding update_key
  update_key-is_down state keysym pressed t room m same =
      elim (add_key_lem state.keys (keydef_alloc libc keysym) pressed m t) [
        | inl (full, many, new) ↦ absurd (omega arith)
        | inr (keys', added, tracking, held) ↦ (
          record state { keys = trim_keys keys' },
          rw (update_key, m, added),
          refl,
          λ s. is_down-trim keys' s ∙ held s ∙ rw same,
        )
      ]
