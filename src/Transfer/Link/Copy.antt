-- ===== src/Transfer/Link/Copy.antt =====
-- What the server's file holds after a transfer.
use ece.Base.{
  ℕ, zero, suc, ◌≡◌, refl, ◌∙◌, ap, sym, ◌≤◌, ◌<◌, ◌≢◌, ◌↔◌, List, [], ◌∷◌, append-nil, map, some,
  Bool, true, arith, Bytes, length, length-append, length-drop, drop, drop_past, length-take-le,
  int_max,
}
use mathlib.Core.Option.{some-injective}
use ece.Transfer.Packet.{file_frag_size}
use ece.Transfer.Disk.{Files, put, found, over, put-get, put_other}
use ece.Transfer.FileServer.{waiting}
use ece.Transfer.FileServer.Laws.{goodbye}
use ece.Transfer.Deliver.{finished, next_fragment, fragment_count}
use ece.Transfer.Deliver.Fragments.{
  IsFileName, datagram, packets, chunks, flat, flat-chunks, fragment_count-Fills,
  file_datagrams-packets,
}
use ece.Transfer.Link.{Link, run, start_transfer}
use ece.Transfer.Link.Complete.{kept_draws, Small, start_finishes}

pub chunks-Small : (rounds : ℕ) (content : Bytes) → Small (chunks rounds content)
unfolding chunks
chunks-Small zero content = tt
chunks-Small (suc rounds) content =
    (length-take-le file_frag_size content, chunks-Small rounds (drop file_frag_size content))

pub length-chunks : (rounds : ℕ) (content : Bytes) → length (chunks rounds content) ≡ rounds
unfolding chunks
length-chunks zero content = refl
length-chunks (suc rounds) content = ap suc (length-chunks rounds (drop file_frag_size content))

pub fragment_count_pos : (size : ℕ) → 0 < size → 0 < fragment_count size
unfolding fragment_count
fragment_count_pos size h = omega arith

-- The tail of the old file is all that can differ.
over_exact : (d old : Bytes) → length old ≤ length d → over d old ≡ d
over_exact d old h = rw (drop_past (length d) old h) (append-nil d)

over_longer : (d old : Bytes) → over d old ≡ d → length old ≤ length d
over_longer d old h =
    omega (arith, ap length h, length-append d (drop (length d) old), length-drop (length d) old)

module _ (opens : Bytes → Bool) (name content : Bytes) (n : IsFileName name) (before : ℕ)
    (files : Files) (some_bytes : 0 < length content)
    (small : fragment_count (length content) ≤ int_max) (o : opens name ≡ true) (draws : List ℕ)
    (enough : fragment_count (length content) ≤ kept_draws draws) where
  run_chunks :
      (pieces : List Bytes)
      → length pieces ≡ fragment_count (length content)
      → Small pieces
      → run opens draws (record {
        sender =
            next_fragment (map datagram (packets (fragment_count (length content)) 0 name pieces));
        inbox = [];
        server = record { total_frag = before; files = files; phase = waiting };
      })
        ≡ some (record {
          sender = finished (goodbye name);
          inbox = [];
          server = record {
            total_frag = fragment_count (length content);
            files = put name (over (flat pieces) (found (files name))) files;
            phase = waiting;
          };
        })
  unfolding next_fragment packets flat
  run_chunks [] e hs = absurd (omega (arith, fragment_count_pos (length content) some_bytes))
  run_chunks (c ∷ cs) e hs =
      start_finishes opens name n (fragment_count (length content)) small (found (files name)) files
        before refl o draws c cs (omega arith) hs.0 hs.1 (omega arith)

  transfer_ends :
      (link : Link) × (t : Link) × (start_transfer name content
          (record { total_frag = before; files = files; phase = waiting })
        ≡ some link)
      × (run opens draws link ≡ some t)
      × (t.sender ≡ finished (goodbye name))
      × (t.server.phase ≡ waiting)
      × (t.server.files ≡ put name (over content (found (files name))) files)
  unfolding start_transfer
  transfer_ends =
      let total = fragment_count (length content) in
      let pieces = chunks total content in
      (
        _,
        _,
        rw (file_datagrams-packets total name n small content refl) refl,
        run_chunks pieces (length-chunks total content) (chunks-Small total content),
        refl,
        refl,
        ap (λ w. put name (over w (found (files name))) files)
            (flat-chunks total content (fragment_count-Fills total content refl)),
      )

  -- A file with at least one byte and at most 2^31 - 1 fragments, sent under a name without NULs
  -- and colons of at most 227 bytes to an idle server that can open it: as soon as the server has
  -- kept as many datagrams as there are fragments, however many it lost in between, the sender has
  -- the goodbye, the server is idle again, the file holds the content with what the old file had
  -- behind it, and no other file has changed.
  pub transfer_completes :
      (other : Bytes)
      → other ≢ name
      → (link : Link) × (t : Link) × (start_transfer name content
            (record { total_frag = before; files = files; phase = waiting })
          ≡ some link)
        × (run opens draws link ≡ some t)
        × (t.sender ≡ finished (goodbye name))
        × (t.server.phase ≡ waiting)
        × (t.server.files name ≡ some (over content (found (files name))))
        × (t.server.files other ≡ files other)
  transfer_completes other h =
      let (link, t, started, ran, told, over_there, held) = transfer_ends in
      (
        link,
        t,
        started,
        ran,
        told,
        over_there,
        rw held (put-get name _ files),
        rw held (put_other name other _ files h),
      )

  -- After such a transfer, under the same conditions, the server's file is the content exactly
  -- when the file of that name was no longer than the content before.
  pub transfer_exact_iff :
      (link : Link) × (t : Link) × (start_transfer name content
          (record { total_frag = before; files = files; phase = waiting })
        ≡ some link)
      × (run opens draws link ≡ some t)
      × ((t.server.files name ≡ some content) ↔ (length (found (files name)) ≤ length content))
  transfer_exact_iff =
      let (link, t, started, ran, told, over_there, written) = transfer_ends in
      let old = found (files name) in
      let holds : t.server.files name ≡ some (over content old) =
        rw written (put-get name _ files) in
      (
        link,
        t,
        started,
        ran,
        (
          λ e. over_longer content old (some-injective _ _ (sym holds ∙ e)),
          λ le. holds ∙ ap some (over_exact content old le),
        ),
      )
