-- ===== src/Transfer/Tests/Link.antt =====
-- A file of three bytes, the first datagram of which is lost.
use ece.Base.{
  ◌≡◌, refl, ◌≤◌, ◌↔◌, [], ◌∷◌, ◌++◌, none, some, Bool, true, arith, Bytes, codes, length,
}
use ece.Transfer.Packet.{Packet, IsPacket}
use ece.Transfer.Disk.{Files, found, over, put}
use ece.Transfer.FileServer.{FileServer, waiting, ack_text, receive_datagram}
use ece.Transfer.FileServer.Laws.{goodbye}
use ece.Transfer.Deliver.{finished, fragment_count}
use ece.Transfer.Deliver.Fragments.{IsFileName, datagram}
use ece.Transfer.Link.{Link, run, start_transfer}
use ece.Transfer.Link.Complete.{kept_draws}
use ece.Transfer.Link.Copy.{transfer_completes, transfer_exact_iff}
use ece.Transfer.Link.Failures.{duplicate_written}

abbrev pub title : Bytes
title = codes "a.txt"

pub title-IsFileName : IsFileName title
title-IsFileName = record { no_nul = ground arith; no_colon = ground arith; fits = omega arith }

abbrev pub every_name : Bytes → Bool
every_name name = true

abbrev pub no_files : Files
no_files name = none

abbrev pub text : Bytes
text = codes "abc"

pub count_is : fragment_count (length text) ≡ 1
unfolding fragment_count
count_is = refl

abbrev old_server : FileServer
old_server = record { total_frag = 0; files = no_files; phase = waiting }

two_draws : kept_draws (3 ∷ 50 ∷ []) ≡ 1
unfolding kept_draws
two_draws = refl

one_draw : kept_draws (50 ∷ []) ≡ 1
unfolding kept_draws
one_draw = refl

transfer_completes_example :
    (link : Link) × (t : Link) × (start_transfer title text old_server ≡ some link)
    × (run every_name (3 ∷ 50 ∷ []) link ≡ some t)
    × (t.sender ≡ finished (goodbye title))
    × (t.server.phase ≡ waiting)
    × (t.server.files title ≡ some (over text (found (no_files title))))
    × (t.server.files (codes "b") ≡ no_files (codes "b"))
transfer_completes_example =
    transfer_completes every_name title text title-IsFileName 0 no_files (omega arith)
      (omega (arith, count_is)) refl (3 ∷ 50 ∷ []) (omega (arith, count_is, two_draws)) (codes "b")
      (ground arith)

abbrev long_file : Files
long_file = put title (codes "abcdef") no_files

transfer_exact_example :
    (link : Link) × (t : Link) × (start_transfer title text
        (record { total_frag = 0; files = long_file; phase = waiting })
      ≡ some link)
    × (run every_name (50 ∷ []) link ≡ some t)
    × ((t.server.files title ≡ some text) ↔ (length (found (long_file title)) ≤ length text))
transfer_exact_example =
    transfer_exact_iff every_name title text title-IsFileName 0 long_file (omega arith)
      (omega (arith, count_is)) refl (50 ∷ []) (omega (arith, count_is, one_draw))

-- The first of two fragments.
abbrev pub half : Packet
half = record { total_frag = 2; frag_no = 1; size = 3; filename = title; filedata = text }

pub half-IsPacket : IsPacket half
half-IsPacket = record {
  total_fits = omega arith;
  number_fits = omega arith;
  size_fits = omega arith;
  data_size = refl;
  no_nul = ground arith;
  no_colon = ground arith;
  name_fits = omega arith;
}

duplicate_written_example :
    (s t : FileServer) × (receive_datagram every_name 9 (datagram half) old_server
      ≡ some (s, ack_text 0 1 ∷ []))
    × (receive_datagram every_name 7 (datagram half) s
        ≡ some (t, ack_text 2 2 ∷ goodbye title ∷ []))
    × (t.phase ≡ waiting)
    × (t.files title ≡ some (over (text ++ text) (found (no_files title))))
duplicate_written_example =
    duplicate_written every_name half half-IsPacket title-IsFileName 0 no_files 9 7 refl refl
      (omega arith) (omega arith)
