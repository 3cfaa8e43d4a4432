-- ===== src/Engine/Settling/Aborts.antt =====
-- The abort of a workflow run by a human's reply at a fallback node, `isHumanAbortReply` of
-- backend/lib/workflow/engine.go and the loop that calls it.
use asgard.Prelude.{
  ◌≡◌, ◌≢◌, refl, ap, ◌⊎◌, inl, inr, true, false, not, ◌&&◌, ◌||◌, List, [], ◌∷◌, Memᴰ, Text, bytes,
  Option, none, some, text_eq, text_eq_sound, text_eq_complete, exists-mem, mem-exists, &&_split,
  ||_split, arith, Bool-cases,
}
use asgard.Workflow.{NodeType, NodeSpec, LoopSpec, WorkflowDefinition}
use asgard.Workflow.Results.{NodeResult}
use asgard.Workflow.Expr.{trim_space}
use asgard.Engine.{find_node}
use asgard.Engine.Settling.{
  contains, is_abort_option, is_abort_word, is_human_abort_reply, is_human, aborts, aborted_at,
  is_aborted,
}

abbrev pub abort_words : List Text
abort_words =
    bytes "abort"
    ∷ bytes "abort workflow"
    ∷ bytes "cancel"
    ∷ bytes "cancelled"
    ∷ bytes "canceled"
    ∷ []

module _ (to_lower : Text → Text) where
  -- A text without case and without the spaces around it.
  abbrev pub folded : Text → Text
  folded s = trim_space (to_lower s)

  -- A reply that is not blank, and is a word for an abort, or an option that names one.
  abbrev pub IsAbortReply : Text → List Text → Type 0
  IsAbortReply output options =
      (folded output ≢ [])
      × (Memᴰ (folded output) abort_words
          ⊎ ((opt : Text) × Memᴰ opt options
              × (folded output ≡ folded opt)
              × ((contains (folded opt) (bytes "abort") ≡ true)
                  ⊎ (contains (folded opt) (bytes "cancel") ≡ true))))

  -- A loop whose fallback is a human node with such a reply.
  abbrev pub IsAborted : WorkflowDefinition → (Text → Option NodeResult) → Type 0
  IsAborted defn results =
      (l : LoopSpec) × (n : NodeSpec) × (res : NodeResult) × Memᴰ l defn.loops
      × (l.on_exhausted ≢ [])
      × (find_node l.on_exhausted defn.nodes ≡ some n)
      × (results l.on_exhausted ≡ some res)
      × (n.node_type ≡ NodeType.human)
      × IsAbortReply res.output n.options

  ne-text_eq : (s : Text) → s ≢ [] → text_eq s [] ≡ false
  ne-text_eq s f = elim (Bool-cases (text_eq s [])) [
    | inl t ↦ absurd (f (text_eq_sound s [] t))
    | inr n ↦ n
  ]

  word-mem : (s : Text) → is_abort_word s ≡ true → Memᴰ s abort_words
  unfolding is_abort_word
  word-mem s e =
      let two = text_eq s (bytes "abort") || text_eq s (bytes "abort workflow") in
      let three = two || text_eq s (bytes "cancel") in
      let four = three || text_eq s (bytes "cancelled") in
      elim (||_split four (text_eq s (bytes "canceled")) e) [
        | inr a ↦ Memᴰ.tail (Memᴰ.tail (Memᴰ.tail (Memᴰ.tail (Memᴰ.head (text_eq_sound _ _ a)))))
        | inl e4 ↦ elim (||_split three (text_eq s (bytes "cancelled")) e4) [
          | inr a ↦ Memᴰ.tail (Memᴰ.tail (Memᴰ.tail (Memᴰ.head (text_eq_sound _ _ a))))
          | inl e3 ↦ elim (||_split two (text_eq s (bytes "cancel")) e3) [
            | inr a ↦ Memᴰ.tail (Memᴰ.tail (Memᴰ.head (text_eq_sound _ _ a)))
            | inl e2 ↦
                elim (||_split (text_eq s (bytes "abort")) (text_eq s (bytes "abort workflow"))
                  e2) [
                    | inr a ↦ Memᴰ.tail (Memᴰ.head (text_eq_sound _ _ a))
                    | inl a ↦ Memᴰ.head (text_eq_sound _ _ a)
                  ]
          ]
        ]
      ]

  mem-word : (s : Text) → Memᴰ s abort_words → is_abort_word s ≡ true
  unfolding is_abort_word
  mem-word s (Memᴰ.head e) = let t = text_eq_complete _ _ e in ground arith
  mem-word s (Memᴰ.tail (Memᴰ.head e)) = let t = text_eq_complete _ _ e in ground arith
  mem-word s (Memᴰ.tail (Memᴰ.tail (Memᴰ.head e))) = let t = text_eq_complete _ _ e in ground arith
  mem-word s (Memᴰ.tail (Memᴰ.tail (Memᴰ.tail (Memᴰ.head e)))) =
      let t = text_eq_complete _ _ e in ground arith
  mem-word s (Memᴰ.tail (Memᴰ.tail (Memᴰ.tail (Memᴰ.tail (Memᴰ.head e))))) =
      let t = text_eq_complete _ _ e in ground arith
  mem-word s (Memᴰ.tail (Memᴰ.tail (Memᴰ.tail (Memᴰ.tail (Memᴰ.tail i))))) = elim i [ ]

  reply_sound :
      (output : Text) (options : List Text)
      → is_human_abort_reply to_lower output options ≡ true
      → IsAbortReply output options
  unfolding is_human_abort_reply is_abort_option
  reply_sound output options e = elim (Bool-cases (text_eq (folded output) [])) [
    | inl blank ↦ (let e' = rw (blank, is_human_abort_reply) at e in cc)
    | inr named ↦
        let full : folded output ≢ [] =
          λ z. (let t = text_eq_complete (folded output) [] z in cc) in
        elim (Bool-cases (is_abort_word (folded output))) [
          | inl word ↦ (full, inl (word-mem (folded output) word))
          | inr other ↦
              let (opt, i, h) =
                exists-mem (is_abort_option to_lower (folded output)) options
                  (rw (named, other, is_human_abort_reply) at e) in
              let (names, same) =
                &&_split
                  (contains (folded opt) (bytes "abort") || contains (folded opt) (bytes "cancel"))
                  (text_eq (folded output) (folded opt)) h in
              (full, inr (opt, i, text_eq_sound _ _ same, ||_split _ _ names))
        ]
  ]

  reply_complete :
      (output : Text) (options : List Text)
      → IsAbortReply output options
      → is_human_abort_reply to_lower output options ≡ true
  unfolding is_human_abort_reply is_abort_option
  reply_complete output options (full, inl word) =
      let named = ne-text_eq (folded output) full in
      let w = mem-word (folded output) word in rw (named, w, is_human_abort_reply) refl
  reply_complete output options (full, inr (opt, i, same, names)) =
      let named = ne-text_eq (folded output) full in
      let t = text_eq_complete (folded output) (folded opt) same in
      let h : is_abort_option to_lower (folded output) opt ≡ true = ground (arith, t, names) in
      let x = mem-exists (is_abort_option to_lower (folded output)) options i h in
      rw (named, is_human_abort_reply) (ground (arith, x))

  human_sound : (t : NodeType) → is_human t ≡ true → t ≡ NodeType.human
  unfolding is_human
  human_sound NodeType.agent e = cc
  human_sound NodeType.command e = cc
  human_sound NodeType.llm e = cc
  human_sound NodeType.workflow e = cc
  human_sound NodeType.human e = refl
  human_sound NodeType.function e = cc

  human_complete : (t : NodeType) → t ≡ NodeType.human → is_human t ≡ true
  unfolding is_human
  human_complete t e = ap is_human e

  aborted_at_sound :
      (n : Option NodeSpec) (res : Option NodeResult)
      → aborted_at to_lower n res ≡ true
      → (node : NodeSpec) × (r : NodeResult) × (n ≡ some node)
        × (res ≡ some r)
        × (node.node_type ≡ NodeType.human)
        × IsAbortReply r.output node.options
  unfolding aborted_at aborts
  aborted_at_sound none res e = cc
  aborted_at_sound (some n) none e = cc
  aborted_at_sound (some n) (some r) e =
      let (a, b) =
        &&_split (is_human n.node_type) (is_human_abort_reply to_lower r.output n.options) e in
      (n, r, refl, refl, human_sound n.node_type a, reply_sound r.output n.options b)

  -- The loop over the fallbacks finds exactly those aborts.
  pub is_aborted_sound :
      (defn : WorkflowDefinition) (results : Text → Option NodeResult)
      → is_aborted to_lower defn results ≡ true
      → IsAborted defn results
  unfolding is_aborted
  is_aborted_sound defn results e =
      let test = λ (l : LoopSpec).
        not (text_eq l.on_exhausted [])
        && aborted_at to_lower (find_node l.on_exhausted defn.nodes) (results l.on_exhausted) in
      let (l, i, h) = exists-mem test defn.loops e in
      let (named, at_node) =
        &&_split (not (text_eq l.on_exhausted []))
          (aborted_at to_lower (find_node l.on_exhausted defn.nodes) (results l.on_exhausted)) h in
      let full : l.on_exhausted ≢ [] =
        λ z. (let t = text_eq_complete l.on_exhausted [] z in ground arith) in
      let (n, r, f, g, human, reply) =
        aborted_at_sound (find_node l.on_exhausted defn.nodes) (results l.on_exhausted) at_node in
      (l, n, r, i, full, f, g, human, reply)

  pub is_aborted_complete :
      (defn : WorkflowDefinition) (results : Text → Option NodeResult)
      → IsAborted defn results
      → is_aborted to_lower defn results ≡ true
  unfolding is_aborted aborted_at aborts
  is_aborted_complete defn results (l, n, r, i, full, f, g, human, reply) =
      let test = λ (l : LoopSpec).
        not (text_eq l.on_exhausted [])
        && aborted_at to_lower (find_node l.on_exhausted defn.nodes) (results l.on_exhausted) in
      let named = ne-text_eq l.on_exhausted full in
      let h = human_complete n.node_type human in
      let t = reply_complete r.output n.options reply in
      mem-exists test defn.loops i (rw (f, g, h, t, named) refl)
