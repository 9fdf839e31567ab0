-- ===== src/Condense/Kept.antt =====
-- What condense.go leaves of the messages, and where engine/trim.go then cuts them.
use sokratos.Base.{
  ℕ, zero, suc, ◌+◌, ◌-◌, ◌≤◌, ◌<◌, ◌≡◌, ◌⊎◌, inl, inr, refl, ap, sym, subst, ◌∙◌, Bool, true,
  false, not, ◌||◌, Option, none, some, List, [], ◌∷◌, ◌++◌, leb, length, take, drop, bytes, All,
  Bool-cases, Option-cases, arith, dec_lt, has_prefix,
}
use sokratos.Text.{truncate}
use sokratos.Text.Clean.{Patterns}
use sokratos.Conversation.{
  Message, has_role, is_tool_message, test_at, back_up, max_one, trim_messages,
}
use sokratos.Condense.{
  is_result, body_of, tool_result, name_before, condense_one, condense_from, condense_tool_results,
  last_assistant,
}

has_prefix_longer :
    (s prefix more : List ℕ) → has_prefix s (prefix ++ more) ≡ true → has_prefix s prefix ≡ true
has_prefix_longer s [] more h = refl
has_prefix_longer [] (c ∷ prefix) more h = cc h
has_prefix_longer (d ∷ s) (c ∷ prefix) more h = ground (arith, has_prefix_longer s prefix more)

is_result_tool : (m : Message) → is_result m ≡ true → is_tool_message m ≡ true
unfolding is_tool_message
is_result_tool m h = ground (arith, has_prefix_longer m.content (bytes "Tool result:") (bytes " "))

module _ (rune_start : ℕ → Bool) where
  -- A long result under its own role: its mark, a name, and the result cut at 400 bytes.
  abbrev pub IsCutResult : Message → Message → Type 0
  IsCutResult m n =
      (is_result m ≡ true)
      × (400 < length (body_of m))
      × (n.role ≡ m.role)
      × ((name : List ℕ) × (n.content
            ≡ tool_result
              ++ (bytes "[" ++ (name ++ (bytes "] " ++ truncate rune_start (body_of m) 400)))))

  abbrev pub OneKept : Message → Message → Type 0
  OneKept m n = ((n ≡ m) ⊎ IsCutResult m n) × (is_tool_message n ≡ is_tool_message m)

  -- The first `count` messages are kept or cut, one by one, and the others are the same.
  abbrev pub Kept : ℕ → List Message → List Message → Type 0
  Kept zero ms ns = ns ≡ ms
  Kept (suc count) [] [] = Unit
  Kept (suc count) (m ∷ ms) (n ∷ ns) = OneKept m n × Kept count ms ns
  Kept (suc count) _ _ = ⊥

  cut_result :
      (m : Message) (r : List ℕ)
      → is_result m ≡ true
      → is_tool_message (record { role = m.role; content = tool_result ++ r }) ≡ is_tool_message m
  cut_result m r h = marked ∙ sym (is_result_tool m h)
    where
      marked : is_tool_message (record { role = m.role; content = tool_result ++ r }) ≡ true
      marked = is_result_tool (record { role = m.role; content = tool_result ++ r }) (ground arith)

  module _ (p : Patterns) (decode_name : List ℕ → Option (List ℕ)) where
    condense_one-OneKept :
        (before : Option Message) (m : Message)
        → OneKept m (condense_one rune_start p decode_name before m)
    unfolding condense_one
    condense_one-OneKept before m =
        elim (Bool-cases (not (is_result m) || has_prefix m.content (bytes "Tool error: "))) [
          | inl e ↦ rw e (inl refl, refl)
          | inr e ↦
              let result : is_result m ≡ true = ground (arith, e) in
              elim (Bool-cases (leb (length (body_of m)) 400)) [
                | inl l ↦ rw (e, l) (inl refl, refl)
                | inr l ↦
                    rw (e, l)
                      (
                        inr (
                          result,
                          ground arith,
                          refl,
                          (name_before rune_start p decode_name (bytes "unknown") before, refl),
                        ),
                        cut_result m _ result,
                      )
              ]
        ]

    condense_from-Kept :
        (count : ℕ) (before : Option Message) (messages : List Message)
        → Kept count messages (condense_from rune_start p decode_name count before messages)
    unfolding condense_from
    condense_from-Kept zero before messages = refl
    condense_from-Kept (suc count) before [] = tt
    condense_from-Kept (suc count) before (m ∷ messages) =
        (condense_one-OneKept before m, condense_from-Kept count _ messages)

same_tools :
    (rune_start : ℕ → Bool) (count : ℕ) (ms ns : List Message)
    → Kept rune_start count ms ns
    → (i : ℕ) → test_at is_tool_message ns i ≡ test_at is_tool_message ms i
same_tools r zero ms ns k i = ap (λ l. test_at is_tool_message l i) k
same_tools r (suc count) [] [] k i = refl
same_tools r (suc count) [] (n ∷ ns) k i = absurd k
same_tools r (suc count) (m ∷ ms) [] k i = absurd k
same_tools r (suc count) (m ∷ ms) (n ∷ ns) k zero = k.0.1
same_tools r (suc count) (m ∷ ms) (n ∷ ns) k (suc i) = same_tools r count ms ns k.1 i

length-Kept :
    (rune_start : ℕ → Bool) (count : ℕ) (ms ns : List Message)
    → Kept rune_start count ms ns
    → length ns ≡ length ms
length-Kept r zero ms ns k = ap length k
length-Kept r (suc count) [] [] k = refl
length-Kept r (suc count) [] (n ∷ ns) k = absurd k
length-Kept r (suc count) (m ∷ ms) [] k = absurd k
length-Kept r (suc count) (m ∷ ms) (n ∷ ns) k = omega (arith, length-Kept r count ms ns k.1)

back_up_same :
    (ms ns : List Message)
    → ((i : ℕ) → test_at is_tool_message ns i ≡ test_at is_tool_message ms i)
    → (c : ℕ) → back_up ns c ≡ back_up ms c
unfolding back_up
back_up_same ms ns h zero = refl
back_up_same ms ns h (suc c) = rw (h (suc c), back_up_same ms ns h c) refl

abbrev pub is_assistant : Message → Bool
is_assistant m = has_role m (bytes "assistant")

abbrev NoneBetween : List Message → ℕ → ℕ → Type 0
NoneBetween ms lo hi = (i : ℕ) → lo ≤ i → i < hi → test_at is_assistant ms i ≡ false

abbrev Found : List Message → ℕ → Option ℕ → Type 0
Found ms hi none = NoneBetween ms 0 hi
Found ms hi (some last) = (test_at is_assistant ms last ≡ true) × NoneBetween ms (suc last) hi

last_assistant-Found :
    (rune_start : ℕ → Bool) (p : Patterns) (decode_name : List ℕ → Option (List ℕ))
    (ms : List Message) (hi : ℕ)
    → Found ms hi (last_assistant rune_start p decode_name ms hi)
unfolding last_assistant
last_assistant-Found r p d ms zero = λ i lo h. absurd (omega (arith, h))
last_assistant-Found r p d ms (suc hi) = elim (Bool-cases (test_at is_assistant ms hi)) [
  | inl e ↦ rw e (e, λ i lo h. absurd (omega (arith, lo, h)))
  | inr e ↦ rw e (further e (last_assistant r p d ms hi) (last_assistant-Found r p d ms hi))
]
  where
    at_most :
        test_at is_assistant ms hi ≡ false
        → (i : ℕ) → (i < hi → test_at is_assistant ms i ≡ false)
        → i < suc hi
        → test_at is_assistant ms i ≡ false
    at_most e i f h = elim (dec_lt i hi) [
      | yes l ↦ f l
      | no g ↦
          let same : i ≡ hi = omega (arith, g, h) in
          subst (λ k. test_at is_assistant ms k ≡ false) (sym same) e
    ]

    further :
        test_at is_assistant ms hi ≡ false → (o : Option ℕ) → Found ms hi o → Found ms (suc hi) o
    further e none f = λ i lo h. at_most e i (λ l. f i lo l) h
    further e (some last) f = (f.0, λ i lo h. at_most e i (λ l. f.1 i lo l) h)

none-All :
    (k : ℕ) (ms : List Message)
    → NoneBetween ms k (length ms)
    → All (λ m. is_assistant m ≡ false) (drop k ms)
none-All zero [] f = tt
none-All zero (m ∷ ms) f = (
  f 0 (omega arith) (omega arith),
  none-All zero ms (λ i lo h. f (suc i) (omega arith) (omega (arith, h))),
)
none-All (suc k) [] f = tt
none-All (suc k) (m ∷ ms) f =
    none-All k ms (λ i lo h. f (suc i) (omega (arith, lo)) (omega (arith, h)))

module _ (rune_start : ℕ → Bool) (p : Patterns) (decode_name : List ℕ → Option (List ℕ))
    (messages : List Message) where
  -- Where the assistant wrote no message nothing changes. Otherwise, in front of the last message of
  -- the assistant every message is the same or is a tool result of more than 400 bytes under its own
  -- role, which is cut at 400 bytes behind its mark and a name; that message and all behind it are
  -- the same, and what counts as a tool message is the same at every place.
  pub condense_tool_results-Kept :
      (All (λ m. is_assistant m ≡ false) messages
        × (condense_tool_results rune_start p decode_name messages ≡ messages))
      ⊎ ((last : ℕ) × (test_at is_assistant messages last ≡ true)
          × All (λ m. is_assistant m ≡ false) (drop (suc last) messages)
          × Kept rune_start last messages (condense_tool_results rune_start p decode_name messages))
  unfolding condense_tool_results
  condense_tool_results-Kept =
      elim (Option-cases (last_assistant rune_start p decode_name messages (length messages))) [
        | inl e ↦
            let f : Found messages (length messages) none =
              subst (Found messages (length messages)) e
                (last_assistant-Found rune_start p decode_name messages (length messages)) in
            inl (none-All 0 messages f, rw (condense_tool_results, e) refl)
        | inr (last, e) ↦
            let f : Found messages (length messages) (some last) =
              subst (Found messages (length messages)) e
                (last_assistant-Found rune_start p decode_name messages (length messages)) in
            inr (
              last,
              f.0,
              none-All (suc last) messages f.1,
              subst (Kept rune_start last messages) (rw (condense_tool_results, e) refl)
                  (condense_from-Kept rune_start p decode_name last none messages),
            )
      ]

  same_tools_condensed :
      (i : ℕ)
      → test_at is_tool_message (condense_tool_results rune_start p decode_name messages) i
        ≡ test_at is_tool_message messages i
  same_tools_condensed i = elim condense_tool_results-Kept [
    | inl a ↦ ap (λ l. test_at is_tool_message l i) a.1
    | inr (last, a, n, k) ↦ same_tools rune_start last messages _ k i
  ]

  length-condense_tool_results :
      length (condense_tool_results rune_start p decode_name messages) ≡ length messages
  length-condense_tool_results = elim condense_tool_results-Kept [
    | inl a ↦ ap length a.1
    | inr (last, a, n, k) ↦ length-Kept rune_start last messages _ k
  ]

  -- `TrimMessages` treats the shortened messages as it does the ones they come from: up to one more
  -- than `max_tail` messages are left alone, and of more the first is kept and those from the place
  -- on that it would find without the shortening.
  pub trim_messages-condense_tool_results :
      (max_tail : ℕ)
      → let condensed = condense_tool_results rune_start p decode_name messages in
        ((length messages ≤ max_tail + 1) × (trim_messages condensed max_tail ≡ condensed))
        ⊎ ((max_tail + 1 < length messages)
            × (trim_messages condensed max_tail
                ≡ take 1 condensed
                  ++ drop (back_up messages (max_one (length messages - max_tail))) condensed))
  unfolding trim_messages
  trim_messages-condense_tool_results max_tail =
      let condensed = condense_tool_results rune_start p decode_name messages in
      let same_length : length condensed ≡ length messages = length-condense_tool_results in
      elim (Bool-cases (leb (length messages) (max_tail + 1))) [
        | inl e ↦ inl (ground arith, rw (same_length, e) refl)
        | inr e ↦ inr (
          ground arith,
          rw
              (
                same_length,
                e,
                back_up_same messages condensed same_tools_condensed
                    (max_one (length messages - max_tail)),
              )
              refl,
        )
      ]
