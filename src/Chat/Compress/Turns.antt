-- ===== src/Chat/Compress/Turns.antt =====
-- The shortened transcript, turn by turn.
use mathlib.Core.Path.{subst}
use erp_agent.Prelude.{
  Bool, true, false, Option, none, some, List, [], ◌∷◌, ◌++◌, if◌then◌else◌, ◌≡◌, refl, sym, ap,
  ◌∙◌, append-nil, arith, Bool-cases, inl, inr,
}
use erp_agent.Chat.Transcript.{Message, is_boundary, last_turn}
use erp_agent.Chat.Compress.{
  Json, is_answer, kept_answer, compress_turn, compress_past, before_last_turn, sent,
  compress_past_turns,
}

-- A turn: its question, and all that follows up to the next one.
pub record PastTurn : Type 0 where
  pub question : Message
  pub rest : List Message

-- The messages before the first question, and the turns.
abbrev pub add_message :
    Bool → Message → List Message × List PastTurn → List Message × List PastTurn
add_message true m (stray, turns) = ([], record { question = m; rest = stray } ∷ turns)
add_message false m (stray, turns) = (m ∷ stray, turns)

abbrev pub split_turns : List Message → List Message × List PastTurn
split_turns [] = ([], [])
split_turns (m ∷ ms) = add_message (is_boundary m) m (split_turns ms)

-- The last answer of some messages.
abbrev pub last_answer : List Message → Option Message
last_answer [] = none
last_answer (m ∷ ms) = elim (last_answer ms) [
  | some a ↦ some a
  | none ↦ if is_answer m then some m else none
]

abbrev later : Option Message → Option Message → Option Message
later first none = first
later first (some a) = some a

later-none : (o : Option Message) → later none o ≡ o
later-none none = refl
later-none (some a) = refl

module _ (json : Json) where
  -- A turn's question and its last answer without heavy blocks.
  abbrev pub shortened : List PastTurn → List Message
  shortened [] = []
  shortened (t ∷ ts) = t.question ∷ (kept_answer json (last_answer t.rest) ++ shortened ts)

  abbrev rebuilt : Option Message → List Message × List PastTurn → List Message
  rebuilt first s = kept_answer json (later first (last_answer s.0)) ++ shortened s.1

  later-answer :
      (first : Option Message) (m : Message) (o : Option Message)
      → later (if is_answer m then some m else first) o
        ≡ later first (elim o [ some a ↦ some a | none ↦ if is_answer m then some m else none ])
  later-answer first m (some a) = refl
  later-answer first m none = elim (Bool-cases (is_answer m)) [
    | inl e ↦ rw e refl
    | inr e ↦ rw e refl
  ]

  compress_turn-shortened :
      (first : Option Message) (ms : List Message)
      → compress_turn json first ms ≡ rebuilt first (split_turns ms)
  unfolding compress_turn
  compress_turn-shortened first [] = sym (append-nil _)
  compress_turn-shortened first (m ∷ ms) =
      by_boundary (compress_turn-shortened none ms)
        (compress_turn-shortened (if is_answer m then some m else first) ms) (is_boundary m)
    where
      by_boundary :
          compress_turn json none ms ≡ rebuilt none (split_turns ms)
          → compress_turn json (if is_answer m then some m else first) ms
            ≡ rebuilt (if is_answer m then some m else first) (split_turns ms)
          → (b : Bool)
          → elim b [
            | true ↦ kept_answer json first ++ m ∷ compress_turn json none ms
            | false ↦ compress_turn json (if is_answer m then some m else first) ms
          ]
            ≡ rebuilt first (add_message b m (split_turns ms))
      by_boundary new same true =
          ap (λ (rest : List Message). kept_answer json first ++ m ∷ rest)
            (new
              ∙ ap (λ (o : Option Message). kept_answer json o ++ shortened (split_turns ms).1)
                  (later-none (last_answer (split_turns ms).0)))
      by_boundary new same false =
          same
          ∙ ap (λ (o : Option Message). kept_answer json o ++ shortened (split_turns ms).1)
              (later-answer first m (last_answer (split_turns ms).0))

  compress_past-shortened :
      (ms : List Message)
      → compress_past json ms ≡ (split_turns ms).0 ++ shortened (split_turns ms).1
  unfolding compress_past
  compress_past-shortened [] = refl
  compress_past-shortened (m ∷ ms) =
      by_boundary (compress_turn-shortened none ms) (compress_past-shortened ms) (is_boundary m)
    where
      by_boundary :
          compress_turn json none ms ≡ rebuilt none (split_turns ms)
          → compress_past json ms ≡ (split_turns ms).0 ++ shortened (split_turns ms).1
          → (b : Bool)
          → elim b [ true ↦ m ∷ compress_turn json none ms | false ↦ m ∷ compress_past json ms ]
            ≡ (add_message b m (split_turns ms)).0 ++ shortened (add_message b m (split_turns ms)).1
      by_boundary new same true =
          ap (λ (rest : List Message). m ∷ rest)
            (new
              ∙ ap (λ (o : Option Message). kept_answer json o ++ shortened (split_turns ms).1)
                  (later-none (last_answer (split_turns ms).0)))
      by_boundary new same false = ap (λ (rest : List Message). m ∷ rest) same

pub before_last_turn-append :
    (ms turn : List Message) → last_turn ms ≡ some turn → before_last_turn ms ++ turn ≡ ms
unfolding last_turn before_last_turn
before_last_turn-append [] turn h = cc
before_last_turn-append (m ∷ ms) turn h =
    by_last (last_turn ms) (λ t e. before_last_turn-append ms t e) refl h
  where
    by_last :
        (o : Option (List Message))
        → ((t : List Message) → last_turn ms ≡ some t → before_last_turn ms ++ t ≡ ms)
        → last_turn ms ≡ o
        → elim o [ some t ↦ some t | none ↦ if is_boundary m then some (m ∷ ms) else none ]
          ≡ some turn
        → elim o [ some t ↦ m ∷ before_last_turn ms | none ↦ [] ] ++ turn ≡ m ∷ ms
    by_last none ih e k = elim (Bool-cases (is_boundary m)) [
      | inl b ↦ ground (arith, k, b)
      | inr b ↦ ground (arith, k, b)
    ]
    by_last (some t) ih e k = ap (λ (rest : List Message). m ∷ rest) (ih turn (e ∙ k))

-- A text with no question after it leaves the last turn where it is.
last_turn-append :
    (xs ys turn : List Message) → last_turn ys ≡ some turn → last_turn (xs ++ ys) ≡ some turn
unfolding last_turn
last_turn-append [] ys turn h = h
last_turn-append (x ∷ xs) ys turn h = rw (last_turn-append xs ys turn h) refl

some-injective {ℓ} : {A : Type ℓ} {a b : A} → some a ≡ some b → a ≡ b
some-injective h = cc

-- The last turn of a transcript is a last turn by itself.
pub last_turn-idempotent :
    (ms turn : List Message) → last_turn ms ≡ some turn → last_turn turn ≡ some turn
unfolding last_turn
last_turn-idempotent [] turn h = cc
last_turn-idempotent (m ∷ ms) turn h = by_last (last_turn ms) (last_turn-idempotent ms turn) refl h
  where
    by_last :
        (o : Option (List Message))
        → (last_turn ms ≡ some turn → last_turn turn ≡ some turn)
        → last_turn ms ≡ o
        → elim o [ some t ↦ some t | none ↦ if is_boundary m then some (m ∷ ms) else none ]
          ≡ some turn
        → last_turn turn ≡ some turn
    by_last (some t) ih e k = ih (e ∙ k)
    by_last none ih e k = elim (Bool-cases (is_boundary m)) [
      | inl b ↦
          let same : m ∷ ms ≡ turn = some-injective (ground (arith, k, b)) in
          subst (λ (t : List Message). last_turn t ≡ some t) same (rw (e, b) refl)
      | inr b ↦ ground (arith, k, b)
    ]

pub compress_past_turns-sent :
    (json : Json) (transcript turn : List Message)
    → last_turn transcript ≡ some turn
    → compress_past_turns json transcript ≡ compress_past json (before_last_turn transcript) ++ turn
unfolding compress_past_turns
compress_past_turns-sent json transcript turn h =
    ap (λ (o : Option (List Message)). sent json o transcript) h

-- A transcript is sent as the shortening of what comes before its last turn, and then the last turn as it is.
-- The shortening is that of a reference definition, which splits the messages into turns: it keeps the messages
-- before the first question, and of each turn its question and its last answer without heavy blocks. What is
-- sent has the same last turn as the transcript.
pub compress_past_turns-shortened :
    (json : Json) (transcript turn : List Message)
    → last_turn transcript ≡ some turn
    → (compress_past_turns json transcript
        ≡ ((split_turns (before_last_turn transcript)).0
            ++ shortened json (split_turns (before_last_turn transcript)).1)
          ++ turn)
      × (before_last_turn transcript ++ turn ≡ transcript)
      × (last_turn (compress_past_turns json transcript) ≡ some turn)
compress_past_turns-shortened json transcript turn h =
    let same = compress_past_turns-sent json transcript turn h in
    (
      same
          ∙ ap (λ (ms : List Message). ms ++ turn)
              (compress_past-shortened json (before_last_turn transcript)),
      before_last_turn-append transcript turn h,
      subst (λ (ms : List Message). last_turn ms ≡ some turn) (sym same)
          (last_turn-append (compress_past json (before_last_turn transcript)) turn turn
            (last_turn-idempotent transcript turn h)),
    )
