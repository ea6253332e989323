-- ===== src/Server/Afe/Align.antt =====
-- `handle_align_afe` of crates/daphne-sc-server/src/handlers.rs and what it calls.
use daphne_sc.Prelude.{
  ℕ, zero, suc, ◌/◌, ◌^◌, bit_and, List, [], ◌∷◌, ◌++◌, ◌==◌, ◌&&◌, Bool, true, false, not,
  if◌then◌else◌,
}
use daphne_sc.Prelude.{get_or, Option, none, some, ok, err}
use daphne_sc.Afe.{AfeCommand, afe_count, from_board}
use daphne_sc.Text.{Text, ascii, decimal}
use daphne_sc.Rpu.{RpuAfeTransport}
use daphne_sc.Server.Messages.{Response, Codec}
use daphne_sc.Server.Submit.{SubmitOutcome, submit, bad_payload}

-- `starts_with` and `contains` on texts
abbrev starts_with : Text → Text → Bool
starts_with text [] = true
starts_with [] (p ∷ prefix) = false
starts_with (x ∷ text) (p ∷ prefix) = x == p && starts_with text prefix

abbrev contains_text : Text → Text → Bool
contains_text [] part = starts_with [] part
contains_text (x ∷ text) part =
    let later = contains_text text part in if starts_with (x ∷ text) part then true else later

unfoldable pub stage_name : ℕ → Text
stage_name stage =
    get_or
      (ascii "unknown"
        ∷ ascii "reset"
        ∷ ascii "delayctrl-ready"
        ∷ ascii "delay-scan"
        ∷ ascii "bitslip-scan"
        ∷ ascii "vtc-restore"
        ∷ ascii "frame-clock-probe"
        ∷ [])
      stage (ascii "unknown")

unfoldable pub describe_alignment_context : ℕ → Option Text
unfolding stage_name
describe_alignment_context context =
    if context == 0
    then none
    else (let afe = bit_and context 0xFF in
        let stage = bit_and (context / 2 ^ 8) 0xFF in
        if afe == 0xFF
        then some (ascii "alignment failed at " ++ stage_name stage)
        else some
            (ascii "alignment failed at " ++ stage_name stage ++ ascii " for AFE " ++ decimal afe))

-- The two additions to the message.
unfoldable pub fault_part : SubmitOutcome → Text
fault_part outcome =
    if not (outcome.fault_code == 0) && not (contains_text outcome.message (ascii "code"))
    then ascii "; fault code " ++ decimal outcome.fault_code
    else []

unfoldable pub context_part : ℕ → Text
context_part context_code = elim (describe_alignment_context context_code) [
  | some context ↦ ascii "; " ++ context
  | none ↦ []
]

unfoldable pub alignment_message : SubmitOutcome → Text
alignment_message outcome =
    outcome.message ++ fault_part outcome ++ context_part outcome.context_code

-- What a readback adds to the two vectors.
unfoldable pub push_alignment : Option ℕ → List ℕ × List ℕ → List ℕ × List ℕ
push_alignment none vectors = vectors
push_alignment (some readback) vectors = if bit_and readback 0x80000000 == 0 then vectors else (
  vectors.0 ++ (bit_and readback 0xFFFF ∷ []),
  vectors.1 ++ (bit_and (readback / 2 ^ 16) 0x0F ∷ []),
)

module _ (c : Codec) {T : Type 0} (rpu : RpuAfeTransport T) where
  -- A round of the loop of `read_alignment_vectors`.
  unfoldable pub read_alignment_of : ℕ → T × List ℕ × List ℕ → T × List ℕ × List ℕ
  read_alignment_of afe_board (t, delay, bitslip) = elim (from_board afe_board) [
    | err e ↦ (t, delay, bitslip)
    | ok afe ↦
        let (t', outcome) = submit rpu (AfeCommand.read_alignment afe) t in
        let (delay', bitslip') = push_alignment outcome.readback (delay, bitslip) in
        (t', delay', bitslip')
  ]

  -- The loop from a board on, `n` boards.
  unfoldable pub read_alignments : ℕ → ℕ → T × List ℕ × List ℕ → T × List ℕ × List ℕ
  read_alignments zero afe_board s = s
  read_alignments (suc n) afe_board s =
      read_alignments n (suc afe_board) (read_alignment_of afe_board s)

  unfoldable pub read_alignment_vectors : T → T × List ℕ × List ℕ
  read_alignment_vectors t = read_alignments afe_count 0 (t, [], [])

  -- `let (delay, bitslip) = ...`
  unfoldable pub alignment_vectors : SubmitOutcome → T → T × List ℕ × List ℕ
  alignment_vectors outcome t =
      if outcome.transport_error then (t, [], []) else read_alignment_vectors t

  -- What follows `submit`.
  unfoldable pub answer_align : T × SubmitOutcome → T × List ℕ
  answer_align (t, outcome) =
      let (t', delay, bitslip) = alignment_vectors outcome t in
      (t', c.encode (Response.align_afes outcome.success delay bitslip (alignment_message outcome)))

  unfoldable pub handle_align_afe : List ℕ → T → T × List ℕ
  handle_align_afe payload t = elim (c.decode_align_afes payload) [
    | err e ↦ (t, c.encode (Response.align_afes false [] [] (bad_payload "cmd_alignAFEs" e)))
    | ok _ ↦ answer_align (submit rpu AfeCommand.align t)
  ]
