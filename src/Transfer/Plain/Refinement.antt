-- ===== src/Transfer/Plain/Refinement.antt =====
-- The servers of Part II and of Part III.
use ece.Base.{
  ℕ, ◌+◌, ◌≡◌, refl, ◌∙◌, ap, sym, List, [], ◌∷◌, ◌++◌, Option, none, some, Bool, true, false,
  Bool-cases, inl, inr, arith, Bytes, All, ltb, if◌then◌else◌, ◌>>=◌, overlay, overlay-append,
}
use mathlib.Core.Option.{some-injective, none-ne-some}
use ece.Transfer.Packet.{
  Packet, IsPacket, buffer_to_packet, buffer_to_packet-eq, sending_buffer_size,
}
use ece.Transfer.FileServer.{
  FileServer, Phase, goodbye_text, receive_datagram, receive_buffer, first_fragment, later_fragment,
  next_round,
}
use ece.Transfer.FileServer
use ece.Transfer.Disk.{Files}
use ece.Transfer.FileServer.Laws.{not_done, parsed}
use ece.Transfer.Deliver.Fragments.{IsFileName, datagram, length-datagram-le}
use ece.Transfer.Plain.{
  PlainServer, PlainStep, PlainPhase, waiting, receiving, quit, exited, receive_packet,
  first_packet, later_packet, next_packet,
}

-- The state of the server of Part III that a state of Part II stands for: without `buffer`.
unfoldable pub forget_phase : PlainPhase → Phase
forget_phase waiting = FileServer.waiting
forget_phase (receiving i opened position buffer) = FileServer.receiving i opened position
forget_phase quit = FileServer.quit
forget_phase exited = FileServer.exited

abbrev pub forget : PlainServer → FileServer
forget s = record { total_frag = s.total_frag; files = s.files; phase = forget_phase s.phase }

abbrev at : ℕ → Files → PlainPhase → PlainServer
at total files phase = record { total_frag = total; files = files; phase = phase }

module _ (p : Packet) (h : IsPacket p) (n : IsFileName p.filename) where
  pub parsed_over :
      (buffer : Bytes) → buffer_to_packet (overlay sending_buffer_size (datagram p) buffer) ≡ some p
  parsed_over buffer =
      rw
        (overlay-append sending_buffer_size (datagram p) buffer
          (omega (arith, length-datagram-le p h, n.fits)))
        (buffer_to_packet-eq p h _)

next_same :
    (i : ℕ) (opened name : Bytes) (position : ℕ) (buffer : Bytes) (replies others : List Bytes)
    (s : PlainServer)
    → (next_packet i opened name position buffer replies s >>= λ r. some (forget r.0))
      ≡ (next_round i opened name position others (forget s) >>= λ r. some r.0)
unfolding next_packet next_round forget_phase
next_same i opened name position buffer replies others s = elim (Bool-cases (ltb i s.total_frag)) [
  | inl e ↦ rw e refl
  | inr e ↦ rw e (goodbye_same (goodbye_text name))
]
  where
    here : Bytes → PlainStep
    here text = some (record s { phase = waiting }, replies ++ text ∷ [])

    there : Bytes → FileServer.Step
    there text = some (record (forget s) { phase = FileServer.waiting }, others ++ text ∷ [])

    goodbye_same :
        (t : Option Bytes)
        → ((t >>= here) >>= λ r. some (forget r.0)) ≡ ((t >>= there) >>= λ r. some r.0)
    goodbye_same none = refl
    goodbye_same (some text) = refl

module _ (opens : Bytes → Bool) (p : Packet) (h : IsPacket p) (n : IsFileName p.filename) where
  step-forget :
      (draw total : ℕ) (files : Files) (phase : PlainPhase)
      → ltb 5 draw ≡ true
      → (receive_packet opens (datagram p) (at total files phase) >>= λ r. some (forget r.0)) ≡ (
          receive_datagram opens draw (datagram p) (forget (at total files phase)) >>= λ r.
          some r.0)
  unfolding receive_packet receive_datagram first_packet first_fragment later_packet later_fragment
      forget_phase
  step-forget draw total files waiting k = elim (Bool-cases (opens p.filename)) [
    | inl o ↦
        rw (k, not_done p h n, parsed p h n, o)
          (next_same 1 p.filename p.filename p.size _ _ _ (at p.total_frag _ waiting))
    | inr o ↦ rw (k, not_done p h n, parsed p h n, o) refl
  ]
  step-forget draw total files (receiving i opened position buffer) k =
      rw (k, parsed p h n, parsed_over p h n buffer)
        (next_same (i + 1) opened p.filename (position + p.size) _ _ _
          (at total _ (receiving i opened position buffer)))
  step-forget draw total files quit k = rw k refl
  step-forget draw total files exited k = rw k refl

-- Runs of the servers, with what they send left out.
pub receive_packets : (Bytes → Bool) → List Packet → PlainServer → Option PlainServer
receive_packets opens [] s = some s
receive_packets opens (p ∷ ps) s =
    receive_packet opens (datagram p) s >>= λ r. receive_packets opens ps r.0

pub receive_rounds : (Bytes → Bool) → List (ℕ × Packet) → FileServer → Option FileServer
receive_rounds opens [] s = some s
receive_rounds opens (round ∷ rounds) s =
    receive_datagram opens round.0 (datagram round.1) s >>= λ r. receive_rounds opens rounds r.0

-- The packets that were not thrown away.
pub kept_packets : List (ℕ × Packet) → List Packet
kept_packets [] = []
kept_packets (round ∷ rounds) =
    if ltb 5 round.0 then round.1 ∷ kept_packets rounds else kept_packets rounds

abbrev pub IsRound : ℕ × Packet → Type 0
IsRound round = IsPacket round.1 × IsFileName round.1.filename

module _ (opens : Bytes → Bool) where
  -- One step that agrees, and runs that agree from every state on.
  step_run :
      (ps : List Packet) (rounds : List (ℕ × Packet)) (here : PlainStep) (there : FileServer.Step)
      → (here >>= λ r. some (forget r.0)) ≡ (there >>= λ r. some r.0)
      → ((t : PlainServer)
          → (receive_packets opens ps t >>= λ u. some (forget u))
            ≡ receive_rounds opens rounds (forget t))
      → ((here >>= λ r. receive_packets opens ps r.0) >>= λ u. some (forget u))
        ≡ (there >>= λ r. receive_rounds opens rounds r.0)
  step_run ps rounds none none e ih = refl
  step_run ps rounds none (some q) e ih = absurd (none-ne-some _ e)
  step_run ps rounds (some r) none e ih = absurd (none-ne-some _ (sym e))
  step_run ps rounds (some r) (some q) e ih =
      ih r.0 ∙ ap (receive_rounds opens rounds) (some-injective _ _ e)

  lost_same :
      (draw : ℕ) (datagram : Bytes) (s : FileServer)
      → ltb 5 draw ≡ false
      → receive_datagram opens draw datagram s ≡ some (s, [])
  unfolding receive_datagram
  lost_same draw datagram s k = rw k refl

  -- From any state of the server of Part II, whatever valid packets with names of at most 227
  -- bytes come in whatever order, and whichever of them the server of Part III throws away: Part
  -- III, from the same state without the bytes of the buffer, fails, or ends with the files, the
  -- total and the phase, as Part II does on the packets that were not thrown away.
  pub receive_packets-receive_rounds :
      (rounds : List (ℕ × Packet)) (s : PlainServer)
      → All IsRound rounds
      → (receive_packets opens (kept_packets rounds) s >>= λ t. some (forget t))
        ≡ receive_rounds opens rounds (forget s)
  unfolding receive_packets receive_rounds kept_packets
  receive_packets-receive_rounds [] s v = refl
  receive_packets-receive_rounds ((draw, p) ∷ rounds) s v = elim (Bool-cases (ltb 5 draw)) [
    | inl k ↦ rw k (
        step_run (kept_packets rounds) rounds _ _
          (step-forget opens p v.0.0 v.0.1 draw s.total_frag s.files s.phase k)
          (λ t. receive_packets-receive_rounds rounds t v.1))
    | inr k ↦
        rw (k, lost_same draw (datagram p) (forget s) k)
          (receive_packets-receive_rounds rounds s v.1)
  ]
