-- ===== src/Ssh/Received.antt =====
-- What the receiving and the stripping of lines in src/protocols/ssh/terrapin.cpp keep of the bytes
-- that a server sends.
use zero_trust_public.Base.{
  ℕ, Bool, false, ◌&&◌, List, [], ◌∷◌, ◌++◌, append_assoc, Bytes, is_empty, if◌then◌else◌, ltb,
  ◌==◌, length, ◌≡◌, refl, sym, ◌∙◌, Bool-cases, inl, inr,
}
use zero_trust_public.Ssh.Check.{receive_at_least, starts_kexinit, strip_lines}

-- All bytes that are received, in order.
abbrev pub joined : List Bytes → Bytes
joined [] = []
joined (chunk ∷ answers) = chunk ++ joined answers

receive_after_empty :
    (buf chunk : Bytes) (answers : List Bytes) (r : Bytes × List Bytes)
    → r.0 ++ joined r.1 ≡ (buf ++ chunk) ++ joined answers
    → let s = if is_empty chunk then (buf, answers) else r in
      s.0 ++ joined s.1 ≡ buf ++ (chunk ++ joined answers)
unfolding is_empty
receive_after_empty buf [] answers r h = refl
receive_after_empty buf (c ∷ chunk) answers r h = h ∙ append_assoc buf (c ∷ chunk) (joined answers)

-- No byte is lost, changed or moved.
pub receive_at_least-joined :
    (needed : ℕ) (buf : Bytes) (answers : List Bytes)
    → (receive_at_least needed buf answers).0 ++ joined (receive_at_least needed buf answers).1
      ≡ buf ++ joined answers
unfolding receive_at_least
receive_at_least-joined needed buf [] = refl
receive_at_least-joined needed buf (chunk ∷ answers) = elim (Bool-cases (ltb (length buf) needed)) [
  | inl e ↦ rw e (
      receive_after_empty buf chunk answers (receive_at_least needed (buf ++ chunk) answers)
        (receive_at_least-joined needed (buf ++ chunk) answers))
  | inr e ↦ rw e refl
]

-- The loop gives an end of the text.
pub strip_lines-suffix :
    (raw front s : Bytes) (fresh : Bool)
    → raw ≡ front ++ s
    → (before : Bytes) × (raw ≡ before ++ strip_lines raw fresh s)
unfolding strip_lines
strip_lines-suffix raw front [] fresh e = ([], refl)
strip_lines-suffix raw front (c ∷ s) fresh e =
    let later =
      strip_lines-suffix raw (front ++ (c ∷ [])) s (c == b'\n')
        (e ∙ sym (append_assoc front (c ∷ []) s)) in
    elim (Bool-cases (fresh && starts_kexinit (c ∷ s))) [
      | inl q ↦ rw q (front, e)
      | inr q ↦ rw q later
    ]

-- Enough is there already.
pub receive_at_least_enough :
    (needed : ℕ) (buf : Bytes) (answers : List Bytes)
    → ltb (length buf) needed ≡ false
    → receive_at_least needed buf answers ≡ (buf, answers)
unfolding receive_at_least
receive_at_least_enough needed buf [] h = refl
receive_at_least_enough needed buf (chunk ∷ answers) h = rw h refl
