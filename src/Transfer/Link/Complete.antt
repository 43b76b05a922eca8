-- ===== src/Transfer/Link/Complete.antt =====
-- A transfer comes to its end, whatever the server loses on the way.
use ece.Base.{
  take, ℕ, ◌+◌, ◌≡◌, refl, ◌∙◌, ap, ◌≤◌, ◌<◌, inl, inr, List, [], ◌∷◌, ◌++◌, map, append_assoc,
  append-nil, some, Bool, Bool-cases, true, false, arith, Bytes, ltb, ltb→lt, lt→ltb, length-append,
  if◌then◌else◌, length, int_max,
}
use ece.Transfer.Packet.{file_frag_size}
use ece.Transfer.Disk.{Files, put, found, over}
use ece.Transfer.FileServer.{FileServer, waiting, receiving, ack_text, next_round, receive_datagram}
use ece.Transfer.FileServer.Laws.{
  goodbye, goodbye_text-goodbye, goodbye-short, receive_datagram_first, receive_datagram_later,
}
use ece.Transfer.Deliver.{sending, finished}
use ece.Transfer.Deliver.Fragments.{IsFileName, datagram, packet, packet-IsPacket, packets, flat}
use ece.Transfer.Link.{Link, exchange, run}

-- The draws that let a datagram through.
unfoldable pub kept_draws : List ℕ → ℕ
kept_draws [] = 0
kept_draws (d ∷ ds) = (if ltb 5 d then 1 else 0) + kept_draws ds

-- Pieces that a packet can carry.
abbrev pub Small : List Bytes → Type 0
Small [] = Unit
Small (c ∷ cs) = (length c ≤ file_frag_size) × Small cs

module _ (opens : Bytes → Bool) where
  lost_exchange :
      (draw : ℕ) (b : Bytes) (bs : List Bytes) (server : FileServer)
      → ltb 5 draw ≡ false
      → exchange opens draw (record { sender = sending b bs; inbox = []; server = server })
        ≡ some (record { sender = sending b bs; inbox = []; server = server })
  unfolding exchange receive_datagram
  lost_exchange draw b bs server h = rw h refl

  -- When the transfer is over, nothing more happens.
  run_finished :
      (draws : List ℕ) (text : Bytes) (inbox : List Bytes) (server : FileServer)
      → run opens draws (record { sender = finished text; inbox = inbox; server = server })
        ≡ some (record { sender = finished text; inbox = inbox; server = server })
  unfolding run
  run_finished [] text inbox server = refl
  run_finished (d ∷ draws) text inbox server = run_finished draws text inbox server

  module _ (name : Bytes) (n : IsFileName name) (total : ℕ) (small : total ≤ int_max) (old : Bytes)
      (files : Files) where
    -- Behind the piece that brings the file to `written`, `i` being the pieces so far.
    abbrev server_at : ℕ → Bytes → FileServer
    server_at i written = record {
      total_frag = total;
      files = put name (over written old) files;
      phase = receiving i name (length written);
    }

    abbrev pub server_end : Bytes → FileServer
    server_end written = record {
      total_frag = total;
      files = put name (over written old) files;
      phase = waiting;
    }

    abbrev pub end : Bytes → Link
    end written = record {
      sender = finished (goodbye name);
      inbox = [];
      server = server_end written;
    }

    abbrev middle : ℕ → Bytes → Bytes → List Bytes → Link
    middle i written c cs = record {
      sender =
          sending (datagram (packet total i name c)) (map datagram (packets total (i + 1) name cs));
      inbox = [];
      server = server_at i written;
    }

    later_exchange :
        (draw i : ℕ) (written c c' : Bytes) (cs : List Bytes)
        → ltb 5 draw ≡ true
        → i + 1 < total
        → length c ≤ file_frag_size
        → exchange opens draw (middle i written c (c' ∷ cs))
          ≡ some (middle (i + 1) (written ++ c) c' cs)
    unfolding exchange next_round packets
    later_exchange draw i written c c' cs h lt hc =
        rw
          (
            receive_datagram_later (packet total i name c)
                (packet-IsPacket total name n small i c (omega arith) hc) n opens draw
                (ltb→lt 5 draw h) total i written old files,
            lt→ltb (i + 1) total lt,
            length-append written c,
          )
          refl

    -- The goodbye is within what `recvfrom` takes.
    received_goodbye :
        (written : Bytes)
        → some (record {
          sender = finished (take 255 (goodbye name));
          inbox = [];
          server = server_end written;
        })
          ≡ some (end written)
    received_goodbye written =
        ap (λ w. some (record { sender = finished w; inbox = []; server = server_end written }))
          (goodbye-short name n)

    past_end : (i : ℕ) → i + 1 ≡ total → ltb (i + 1) total ≡ false
    past_end i e = ground arith

    last_exchange :
        (draw i : ℕ) (written c : Bytes)
        → ltb 5 draw ≡ true
        → i + 1 ≡ total
        → length c ≤ file_frag_size
        → exchange opens draw (middle i written c []) ≡ some (end (written ++ c))
    unfolding exchange next_round packets
    last_exchange draw i written c h e hc =
        rw
          (
            receive_datagram_later (packet total i name c)
                (packet-IsPacket total name n small i c (omega arith) hc) n opens draw
                (ltb→lt 5 draw h) total i written old files,
            past_end i e,
            goodbye_text-goodbye name n,
          )
          (received_goodbye (written ++ c))

    middle_finishes :
        (draws : List ℕ) (i : ℕ) (written c : Bytes) (cs : List Bytes)
        → i + 1 + length cs ≡ total
        → length c ≤ file_frag_size
        → Small cs
        → length cs < kept_draws draws
        → run opens draws (middle i written c cs) ≡ some (end (written ++ (c ++ flat cs)))
    unfolding run kept_draws flat
    middle_finishes [] i written c cs e hc hs k = absurd (omega arith)
    middle_finishes (d ∷ draws) i written c [] e hc hs k = elim (Bool-cases (ltb 5 d)) [
      | inr lost ↦
          rw (lost_exchange d _ _ (server_at i written) lost)
            (middle_finishes draws i written c [] e hc hs (ground arith))
      | inl kept ↦
          rw (last_exchange d i written c kept (omega arith) hc, append-nil c)
            (run_finished draws (goodbye name) [] (server_end (written ++ c)))
    ]
    middle_finishes (d ∷ draws) i written c (c' ∷ cs) e hc hs k = elim (Bool-cases (ltb 5 d)) [
      | inr lost ↦
          rw (lost_exchange d _ _ (server_at i written) lost)
            (middle_finishes draws i written c (c' ∷ cs) e hc hs (ground arith))
      | inl kept ↦ rw (later_exchange d i written c c' cs kept (omega arith) hc) (
          middle_finishes draws (i + 1) (written ++ c) c' cs (omega arith) hs.0 hs.1 (ground arith)
          ∙ ap (λ w. some (end w)) (append_assoc written c (c' ++ flat cs)))
    ]

    module _ (before : ℕ) (fresh : old ≡ found (files name)) (o : opens name ≡ true) where
      abbrev pub server_start : FileServer
      server_start = record { total_frag = before; files = files; phase = waiting }

      abbrev pub start : Bytes → List Bytes → Link
      start c cs = record {
        sender =
            sending (datagram (packet total 0 name c)) (map datagram (packets total 1 name cs));
        inbox = [];
        server = server_start;
      }

      first_received :
          (draw : ℕ) (c : Bytes)
          → ltb 5 draw ≡ true
          → length c ≤ file_frag_size
          → 0 < total
          → receive_datagram opens draw (datagram (packet total 0 name c)) server_start
            ≡ next_round 1 name name (length c) (ack_text before 1 ∷ []) (server_end c)
      first_received draw c h hc pos = rw fresh (
          receive_datagram_first (packet total 0 name c)
            (packet-IsPacket total name n small 0 c pos hc) n opens draw (ltb→lt 5 draw h) before
            files o)

      pub start_finishes :
          (draws : List ℕ) (c : Bytes) (cs : List Bytes)
          → 1 + length cs ≡ total
          → length c ≤ file_frag_size
          → Small cs
          → length cs < kept_draws draws
          → run opens draws (start c cs) ≡ some (end (c ++ flat cs))
      unfolding run kept_draws flat exchange next_round packets
      start_finishes [] c cs e hc hs k = absurd (omega arith)
      start_finishes (d ∷ draws) c [] e hc hs k = elim (Bool-cases (ltb 5 d)) [
        | inr lost ↦
            rw (lost_exchange d _ _ server_start lost)
              (start_finishes draws c [] e hc hs (ground arith))
        | inl kept ↦
            rw
              (
                first_received d c kept hc (omega arith),
                past_end 0 (omega arith),
                goodbye_text-goodbye name n,
                append-nil c,
              )
              (run_finished draws (take 255 (goodbye name)) [] (server_end c) ∙ received_goodbye c)
      ]
      start_finishes (d ∷ draws) c (c' ∷ cs) e hc hs k = elim (Bool-cases (ltb 5 d)) [
        | inr lost ↦
            rw (lost_exchange d _ _ server_start lost)
              (start_finishes draws c (c' ∷ cs) e hc hs (ground arith))
        | inl kept ↦
            rw (first_received d c kept hc (omega arith), lt→ltb 1 total (omega arith))
              (middle_finishes draws 1 c c' cs (omega arith) hs.0 hs.1 (ground arith))
      ]
