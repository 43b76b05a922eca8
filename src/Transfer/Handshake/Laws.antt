-- ===== src/Transfer/Handshake/Laws.antt =====
-- Who answers what, and whether anything is sent.
use ece.Base.{
  ◌≡◌, refl, ◌≤◌, ◌<◌, ◌↔◌, Bool, true, false, Bool-cases, inl, inr, [], ◌∷◌, ◌++◌, some, arith,
  Bytes, NoNul, length, codes, c_str, str_eq, str_eq_iff, strcpy, overlay, ◌==◌, ==_ne,
}
use ece.Transfer.Handshake.{
  answer, serve, accepts, read_names, Opening, incorrect_format, scan_word,
}

-- Whatever the buffers of both programs of Part I held before, deliver starts a transfer on the
-- reply to a datagram exactly when the string in the server's buffer, behind that datagram, is
-- ftp.
pub accepts-serve :
    (datagram buffer other : Bytes)
    → (accepts (serve datagram buffer).1 other ≡ true)
      ↔ (c_str (serve datagram buffer).0 ≡ codes "ftp")
unfolding accepts serve answer overlay c_str str_eq
accepts-serve datagram buffer other =
    let received = overlay 49 datagram buffer in
    let same = str_eq_iff (c_str received) (codes "ftp") in
    elim (Bool-cases (str_eq (c_str received) (codes "ftp"))) [
      | inl e ↦ rw e (λ a. same.0 e, λ b. refl)
      | inr e ↦ rw e (λ a. cc, λ b. cc (same.1 b))
    ]

-- A server of Part I that has received a word of 4 to 49 bytes without NULs answers no to the
-- three bytes ftp that come next.
pub serve_stale :
    (word buffer : Bytes)
    → NoNul word
    → 3 < length word
    → length word ≤ 49
    → (serve (codes "ftp") (serve word buffer).0).1 ≡ codes "no" ++ 0 ∷ []
unfolding serve answer c_str str_eq overlay
serve_stale [] buffer h l k = absurd (omega arith)
serve_stale (a ∷ []) buffer h l k = absurd (omega arith)
serve_stale (a ∷ b ∷ []) buffer h l k = absurd (omega arith)
serve_stale (a ∷ b ∷ c ∷ []) buffer h l k = absurd (omega arith)
serve_stale (a ∷ b ∷ c ∷ d ∷ word) buffer h l k =
    let full : (d == 0) ≡ false = ==_ne d 0 h.1.1.1.0 in rw full refl

short_word : (word : Bytes) → length word < 3 → str_eq word (codes "ftp") ≡ false
unfolding str_eq
short_word [] h = refl
short_word (a ∷ []) h = ground arith
short_word (a ∷ b ∷ []) h = ground arith
short_word (a ∷ b ∷ c ∷ word) h = absurd (omega arith)

-- Whatever is typed, and whichever files there are, the deliver of Part I can only say that the
-- format is incorrect, as long as it writes behind no array and reads nothing that was never
-- written: it never comes to send a datagram.
pub read_names-fails :
    (exists : Bytes → Bool) (input : Bytes) (r : Opening)
    → read_names exists input ≡ some r
    → r ≡ incorrect_format
unfolding read_names strcpy
read_names-fails exists input r h = ground (arith, short_word (scan_word input).0)
