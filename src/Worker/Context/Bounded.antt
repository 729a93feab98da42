-- ===== src/Worker/Context/Bounded.antt =====
-- The view of the history that a model is shown is bounded.
use mathlib.Core.List.{reverse, reverse-append}
use tgent.Prelude.{
  ℕ, zero, suc, ◌+◌, ◌-◌, ◌≤◌, String, false, ◌≡◌, refl, ap, ◌∙◌, ◌⊎◌, inl, inr, List, [], ◌∷◌,
  ◌++◌, length, drop, length-append, arith, ltb, if-elim, ltb-false→le,
}
use tgent.Json.{Json, Fields, str, field, end}
use tgent.Worker.Context.{
  is_tool, is_empty, last_of, drop_tools, shorten, select, clean_history, selected_messages,
  api_messages, prompt_with,
}

module _ (json_bytes : Fields → ℕ) where
  -- The bytes of the messages.
  abbrev pub total_bytes : List Fields → ℕ
  total_bytes [] = 0
  total_bytes (m ∷ ms) = json_bytes m + total_bytes ms

  total_bytes-append :
      (ms ns : List Fields) → total_bytes (ms ++ ns) ≡ total_bytes ms + total_bytes ns
  total_bytes-append [] ns = omega arith
  total_bytes-append (m ∷ ms) ns = omega (arith, total_bytes-append ms ns)

  total_bytes-reverse : (ms : List Fields) → total_bytes (reverse ms) ≡ total_bytes ms
  total_bytes-reverse [] = refl
  total_bytes-reverse (m ∷ ms) =
      ap total_bytes (reverse-append (m ∷ []) ms)
      ∙ omega (arith, total_bytes-append (reverse ms) (m ∷ []), total_bytes-reverse ms)

  -- The messages and what stands before them fit, or there is no message.
  abbrev Fits : ℕ → List Fields → Type 0
  Fits base ms = (ms ≡ []) ⊎ (base + total_bytes ms ≤ 1000000)

  select-Fits :
      (base : ℕ) (ms selected : List Fields) (total : ℕ)
      → total ≡ base + total_bytes selected
      → Fits base selected
      → Fits base (select json_bytes ms selected total)
        × (length (select json_bytes ms selected total) ≤ length selected + length ms)
  unfolding select
  select-Fits base [] selected total e fits = (fits, omega arith)
  select-Fits base (m ∷ ms) selected total e fits =
      if-elim T (ltb 1000000 (total + json_bytes m))
        (λ _.
          if-elim T (is_empty selected)
            (λ _.
              if-elim T (ltb 1000000 (total + json_bytes (shorten json_bytes total m)))
                (λ _. skipped (select-Fits base ms selected total e fits))
                (taken (shorten json_bytes total m) (
                  select-Fits base ms (selected ++ shorten json_bytes total m ∷ [])
                    (total + json_bytes (shorten json_bytes total m)))))
            (λ _. (fits, omega arith)))
        (taken m (select-Fits base ms (selected ++ m ∷ []) (total + json_bytes m)))
    where
      T : List Fields → Type 0
      T r = Fits base r × (length r ≤ length selected + suc (length ms))

      skipped :
          Fits base (select json_bytes ms selected total)
            × (length (select json_bytes ms selected total) ≤ length selected + length ms)
          → T (select json_bytes ms selected total)
      skipped (f, l) = (f, omega arith)

      taken :
          (n : Fields)
          → (total + json_bytes n ≡ base + total_bytes (selected ++ n ∷ [])
              → Fits base (selected ++ n ∷ [])
              → Fits base (select json_bytes ms (selected ++ n ∷ []) (total + json_bytes n))
                × (length (select json_bytes ms (selected ++ n ∷ []) (total + json_bytes n))
                    ≤ length (selected ++ n ∷ []) + length ms))
          → ltb 1000000 (total + json_bytes n) ≡ false
          → T (select json_bytes ms (selected ++ n ∷ []) (total + json_bytes n))
      taken n rest small =
          let same : total + json_bytes n ≡ base + total_bytes (selected ++ n ∷ []) =
            omega (arith, e, total_bytes-append selected (n ∷ [])) in
          let (f, l) =
            rest same
              (inr (omega (arith, same, ltb-false→le 1000000 (total + json_bytes n) small))) in
          (f, omega (arith, l, length-append selected (n ∷ [])))

length-reverse : (ms : List Fields) → length (reverse ms) ≡ length ms
length-reverse [] = refl
length-reverse (m ∷ ms) =
    ap length (reverse-append (m ∷ []) ms)
    ∙ omega (arith, length-append (reverse ms) (m ∷ []), length-reverse ms)

length-drop : (n : ℕ) (ms : List Fields) → length (drop n ms) ≡ length ms - n
length-drop zero ms = omega arith
length-drop (suc n) [] = omega arith
length-drop (suc n) (m ∷ ms) = omega (arith, length-drop n ms)

module _ (json_bytes : Fields → ℕ) where
  -- What is left behind the leading tool messages.
  record Trimmed (before after : List Fields) : Type 0 where
    smaller : total_bytes json_bytes after ≤ total_bytes json_bytes before
    shorter : length after ≤ length before
    nothing : before ≡ [] → after ≡ []

  drop_tools-Trimmed : (ms : List Fields) → Trimmed ms (drop_tools ms)
  unfolding drop_tools
  drop_tools-Trimmed [] = record { smaller = omega arith; shorter = omega arith; nothing = λ e. e }
  drop_tools-Trimmed (m ∷ ms) =
      let t = drop_tools-Trimmed ms in
      if-elim (Trimmed (m ∷ ms)) (is_tool m)
        (λ _. record {
          smaller = omega (arith, t.smaller);
          shorter = omega (arith, t.shorter);
          nothing = λ e. cc;
        })
        (λ _. record { smaller = omega arith; shorter = omega arith; nothing = λ e. e })

-- No result of a tool stands first, without the call that it answers.
abbrev pub StartsWithoutTool : List Fields → Type 0
StartsWithoutTool [] = Unit
StartsWithoutTool (m ∷ ms) = is_tool m ≡ false

drop_tools-start : (ms : List Fields) → StartsWithoutTool (drop_tools ms)
unfolding drop_tools
drop_tools-start [] = tt
drop_tools-start (m ∷ ms) =
    if-elim StartsWithoutTool (is_tool m) (λ _. drop_tools-start ms) (λ not_tool. not_tool)

module _ (json_bytes : Fields → ℕ) (text_bytes : String → ℕ) (system_prompt : String)
    (tools : List Json) (history : List Fields) where
  pub record IsBounded (ms : List Fields) : Type 0 where
    pub few : length ms ≤ 120
    pub fits :
        (ms ≡ [])
        ⊎ (text_bytes (prompt_with system_prompt tools) + total_bytes json_bytes ms ≤ 1000000)
    pub start : StartsWithoutTool ms

  -- A model is shown the system prompt and at most 120 messages behind it, the first of which is no
  -- result of a tool; the prompt and the messages have at most 1000000 bytes, or there is no
  -- message.
  pub api_messages-IsBounded :
      (ms : List Fields) × (api_messages json_bytes text_bytes system_prompt tools history
        ≡ field "role" (str "system") (field "content" (str (prompt_with system_prompt tools)) end)
          ∷ ms)
      × IsBounded ms
  unfolding api_messages selected_messages
  api_messages-IsBounded = (
    drop_tools (reverse chosen'),
    refl,
    record {
      few = fewer;
      fits = fitting (select-Fits json_bytes prompt recent' [] prompt (omega arith) (inl refl)).0;
      start = drop_tools-start (reverse chosen');
    },
  )
    where
      prompt : ℕ
      prompt = text_bytes (prompt_with system_prompt tools)

      recent' : List Fields
      recent' = reverse (last_of 120 (clean_history history))

      chosen' : List Fields
      chosen' = select json_bytes recent' [] prompt

      fewer : length (drop_tools (reverse chosen')) ≤ 120
      fewer =
          let t = drop_tools-Trimmed json_bytes (reverse chosen') in
          omega (
            arith,
            t.shorter,
            length-reverse chosen',
            (select-Fits json_bytes prompt recent' [] prompt (omega arith) (inl refl)).1,
            length-reverse (last_of 120 (clean_history history)),
            length-drop (length (clean_history history) - 120) (clean_history history),
          )

      fitting :
          Fits json_bytes prompt chosen' → Fits json_bytes prompt (drop_tools (reverse chosen'))
      fitting (inl empty) =
          inl ((drop_tools-Trimmed json_bytes (reverse chosen')).nothing (rw empty))
      fitting (inr fits) =
          let t = drop_tools-Trimmed json_bytes (reverse chosen') in
          inr (omega (arith, fits, t.smaller, total_bytes-reverse json_bytes chosen'))
