-- ===== src/Transfer/Plain/Link/Copy.antt =====
-- What the server's file holds after a transfer of Part II.
use ece.Base.{
  ℕ, ◌≡◌, refl, ◌∙◌, ap, sym, ◌≤◌, ◌<◌, ◌≢◌, List, [], ◌∷◌, map, some, Bool, true, arith, Bytes,
  length, int_max,
}
use ece.Transfer.Disk.{Files, found, over, put-get, put_other}
use ece.Transfer.FileServer.Laws.{goodbye}
use ece.Transfer.Deliver.{fragment_count}
use ece.Transfer.Deliver.Fragments.{
  IsFileName, datagram, packets, chunks, flat, flat-chunks, fragment_count-Fills,
  file_datagrams-packets,
}
use ece.Transfer.Plain.{waiting}
use ece.Transfer.Plain.Deliver.{finished, next_datagram}
use ece.Transfer.Plain.Link.{PlainLink, exchanges, start_plain}
use ece.Transfer.Plain.Link.Complete.{closed, start, start_finishes}
use ece.Transfer.Link.Complete.{Small}
use ece.Transfer.Link.Copy.{chunks-Small, length-chunks, fragment_count_pos}

module _ (opens : Bytes → Bool) (name content : Bytes) (n : IsFileName name) (before : ℕ)
    (files : Files) (some_bytes : 0 < length content)
    (small : fragment_count (length content) ≤ int_max) (o : opens name ≡ true) where
  run_chunks :
      (pieces : List Bytes)
      → length pieces ≡ fragment_count (length content)
      → Small pieces
      → exchanges opens (fragment_count (length content)) (record {
        sender =
            next_datagram (map datagram (packets (fragment_count (length content)) 0 name pieces));
        inbox = [];
        server = record { total_frag = before; files = files; phase = waiting };
      })
        ≡ some (
            closed opens name n
              (fragment_count (length content))
              small
              (found (files name))
              files
              (flat pieces))
  unfolding next_datagram packets flat
  run_chunks [] e hs = absurd (omega (arith, fragment_count_pos (length content) some_bytes))
  run_chunks (c ∷ cs) e hs =
      ap
        (λ k. exchanges opens k (
          start opens name n (fragment_count (length content)) small (found (files name)) files
            before refl o c cs))
        (sym e)
      ∙ start_finishes opens name n (fragment_count (length content)) small (found (files name))
          files before refl o c cs e hs.0 hs.1

  -- In Part II, a file with at least one byte and at most 2^31 - 1 fragments, sent under a name
  -- without NULs and colons of at most 227 bytes to an idle server that can open it: after one
  -- exchange for each fragment the sender has the goodbye, the server is idle again, the file
  -- holds the content with what the old file had behind it, and no other file has changed.
  pub plain_transfer_completes :
      (other : Bytes)
      → other ≢ name
      → (link : PlainLink) × (t : PlainLink) × (start_plain name content
            (record { total_frag = before; files = files; phase = waiting })
          ≡ some link)
        × (exchanges opens (fragment_count (length content)) link ≡ some t)
        × (t.sender ≡ finished (goodbye name))
        × (t.server.phase ≡ waiting)
        × (t.server.files name ≡ some (over content (found (files name))))
        × (t.server.files other ≡ files other)
  unfolding start_plain
  plain_transfer_completes other h =
      let total = fragment_count (length content) in
      let pieces = chunks total content in
      let whole : flat pieces ≡ content =
        flat-chunks total content (fragment_count-Fills total content refl) in
      (
        _,
        _,
        rw (file_datagrams-packets total name n small content refl) refl,
        run_chunks pieces (length-chunks total content) (chunks-Small total content),
        refl,
        refl,
        put-get name _ files ∙ ap (λ w. some (over w (found (files name)))) whole,
        put_other name other _ files h,
      )
