-- ===== src/Transfer/Tests/Plain.antt =====
-- Part II: a file of three bytes, and datagrams that come twice.
use ece.Base.{ℕ, ◌≡◌, refl, List, [], ◌∷◌, some, arith, All, codes, length, ◌>>=◌}
use ece.Transfer.Packet.{Packet}
use ece.Transfer.Disk.{found, over}
use ece.Transfer.FileServer.Laws.{goodbye}
use ece.Transfer.Deliver.{fragment_count}
use ece.Transfer.Plain.{PlainServer, waiting}
use ece.Transfer.Plain.Deliver.{finished}
use ece.Transfer.Plain.Link.{PlainLink, exchanges, start_plain}
use ece.Transfer.Plain.Link.Copy.{plain_transfer_completes}
use ece.Transfer.Plain.Refinement.{
  IsRound, forget, kept_packets, receive_packets, receive_rounds, receive_packets-receive_rounds,
}
use ece.Transfer.Tests.Link.{
  title, title-IsFileName, every_name, no_files, text, count_is, half, half-IsPacket,
}

abbrev quiet : PlainServer
quiet = record { total_frag = 0; files = no_files; phase = waiting }

plain_transfer_example :
    (link : PlainLink) × (t : PlainLink) × (start_plain title text quiet ≡ some link)
    × (exchanges every_name (fragment_count (length text)) link ≡ some t)
    × (t.sender ≡ finished (goodbye title))
    × (t.server.phase ≡ waiting)
    × (t.server.files title ≡ some (over text (found (no_files title))))
    × (t.server.files (codes "b") ≡ no_files (codes "b"))
plain_transfer_example =
    plain_transfer_completes every_name title text title-IsFileName 0 no_files (omega arith)
      (omega (arith, count_is)) refl (codes "b") (ground arith)

-- The first datagram is lost, and comes again.
abbrev rounds : List (ℕ × Packet)
rounds = (2, half) ∷ (90, half) ∷ []

rounds-IsRound : All IsRound rounds
rounds-IsRound = ((half-IsPacket, title-IsFileName), ((half-IsPacket, title-IsFileName), tt))

refinement_example :
    (receive_packets every_name (kept_packets rounds) quiet >>= λ t. some (forget t))
    ≡ receive_rounds every_name rounds (forget quiet)
refinement_example = receive_packets-receive_rounds every_name rounds quiet rounds-IsRound
