-- ===== src/Pipe/Queue.antt =====
-- The bytes in a pipe as a queue, and the calls on it, xv6-public/pipe.c.
use os.Base.{
  ℕ, zero, suc, ◌+◌, ◌-◌, ◌%◌, ◌≤◌, ◌<◌, ◌≡◌, ◌≢◌, refl, sym, ap, ◌∙◌, Bool, true, false, ◌||◌, not,
  List, [], ◌∷◌, ◌++◌, append-nil, append_assoc, arith, min, length, ◌==◌, if◌then◌else◌,
  Bool-cases, ==_iff, inl, inr,
}
use os.Pipe.Defs.{
  u32, pipe_size, Pipe, store, Written, written, write_failed, write_asleep, put, is_full,
  pipewrite, Read, bytes_read, read_failed, read_asleep, read_from, piperead,
}

-- The `count` bytes from a counter's position on.
unfoldable pub bytes_from : (count pos : ℕ) → (ℕ → ℕ) → List ℕ
bytes_from zero pos d = []
bytes_from (suc k) pos d = d (pos % pipe_size) ∷ bytes_from k ((pos + 1) % u32) d

abbrev pub count : Pipe → ℕ
count p = (p.nwrite + u32 - p.nread) % u32

-- The bytes in a pipe, in the order of writing.
abbrev pub contents : Pipe → List ℕ
contents p = bytes_from (count p) p.nread p.buffer

-- The counters are words, and at most 512 apart.
abbrev pub IsValid : Pipe → Type 0
IsValid p = (p.nread < u32) × (p.nwrite < u32) × (count p ≤ pipe_size)

store_ne : (d : ℕ → ℕ) (i j v : ℕ) → j ≢ i → store d i v j ≡ d j
store_ne d i j v ne = elim (Bool-cases (j == i)) [
  | inl z ↦ absurd (ne ((==_iff j i).0 z))
  | inr z ↦ rw (z) refl
]

store_eq : (d : ℕ → ℕ) (i j v : ℕ) → j ≡ i → store d i v j ≡ v
store_eq d i j v e = rw ((==_iff j i).1 e) refl

-- A write at a position past the bytes changes none of them.
bytes_from-store :
    (k m pos v : ℕ) (d : ℕ → ℕ)
    → k ≤ m
    → m < pipe_size
    → bytes_from k pos (store d ((pos + m) % u32 % pipe_size) v) ≡ bytes_from k pos d
unfolding bytes_from
bytes_from-store zero m pos v d low high = refl
bytes_from-store (suc k) zero pos v d low high = absurd (omega arith)
bytes_from-store (suc k) (suc m) pos v d low high =
    let shift : (pos + suc m) % u32 % pipe_size ≡ ((pos + 1) % u32 + m) % u32 % pipe_size =
      omega arith in
    rw (store_ne d ((pos + suc m) % u32 % pipe_size) (pos % pipe_size) v (λ e. omega arith)) (
      rw (shift) (
        ap (λ l. d (pos % pipe_size) ∷ l)
          (bytes_from-store k m ((pos + 1) % u32) v d (omega arith) (omega arith))))

-- A write just past the bytes adds one at the end.
bytes_from-suc :
    (k pos v : ℕ) (d : ℕ → ℕ)
    → k < pipe_size
    → bytes_from (suc k) pos (store d ((pos + k) % u32 % pipe_size) v)
      ≡ bytes_from k pos d ++ (v ∷ [])
unfolding bytes_from
bytes_from-suc zero pos v d h =
    rw (store_eq d ((pos + 0) % u32 % pipe_size) (pos % pipe_size) v (omega arith)) refl
bytes_from-suc (suc k) pos v d h =
    let shift : (pos + suc k) % u32 % pipe_size ≡ ((pos + 1) % u32 + k) % u32 % pipe_size =
      omega arith in
    rw (store_ne d ((pos + suc k) % u32 % pipe_size) (pos % pipe_size) v (λ e. omega arith)) (
      rw (shift)
        (ap (λ l. d (pos % pipe_size) ∷ l) (bytes_from-suc k ((pos + 1) % u32) v d (omega arith))))

put-IsValid :
    (b : ℕ) (p : Pipe)
    → IsValid p
    → is_full p ≡ false
    → IsValid (put b p)
      × (count (put b p) ≡ suc (count p))
      × (contents (put b p) ≡ contents p ++ (b ∷ []))
put-IsValid b p (r, w, c) room =
    let low : count p < pipe_size = ground arith in
    let grown : count (put b p) ≡ suc (count p) = omega arith in
    let at : p.nwrite % pipe_size ≡ (p.nread + count p) % u32 % pipe_size = omega arith in
    (
      (r, omega arith, omega arith),
      grown,
      rw (grown, at) (bytes_from-suc (count p) p.nread b p.buffer low),
    )

-- `taken` is what a call has put after the bytes that were in the pipe.
abbrev pub Queued : List ℕ → Pipe → List ℕ → Pipe → Type 0
Queued bytes p taken p' = IsValid p' × (contents p' ≡ contents p ++ taken)

-- How a write leaves the pipe: with all bytes after the earlier ones, or with the first of them and
-- full, in which case it sleeps while the pipe has a reader and the process lives.
abbrev pub WritesInOrder : Bool → List ℕ → Pipe → Written → Type 0
WritesInOrder killed bytes p (written p') = Queued bytes p bytes p'
WritesInOrder killed bytes p (write_asleep rest p') =
    (taken : List ℕ) × (bytes ≡ taken ++ rest)
    × Queued bytes p taken p'
    × (is_full p' ≡ true)
    × (not p.readopen || killed ≡ false)
WritesInOrder killed bytes p (write_failed p') =
    (taken rest : List ℕ) × (bytes ≡ taken ++ rest)
    × Queued bytes p taken p'
    × (is_full p' ≡ true)
    × (not p.readopen || killed ≡ true)

extend :
    (killed : Bool) (b : ℕ) (bytes : List ℕ) (p : Pipe) (w : Written)
    → contents (put b p) ≡ contents p ++ (b ∷ [])
    → WritesInOrder killed bytes (put b p) w
    → WritesInOrder killed (b ∷ bytes) p w
extend killed b bytes p (written p') e (v, q) =
    (v, q ∙ ap (λ l. l ++ bytes) e ∙ append_assoc (contents p) (b ∷ []) bytes)
extend killed b bytes p (write_asleep rest p') e (taken, split, (v, q), full, why) = (
  b ∷ taken,
  ap (λ l. b ∷ l) split,
  (v, q ∙ ap (λ l. l ++ taken) e ∙ append_assoc (contents p) (b ∷ []) taken),
  full,
  why,
)
extend killed b bytes p (write_failed p') e (taken, rest, split, (v, q), full, why) = (
  b ∷ taken,
  rest,
  ap (λ l. b ∷ l) split,
  (v, q ∙ ap (λ l. l ++ taken) e ∙ append_assoc (contents p) (b ∷ []) taken),
  full,
  why,
)

-- A write to a valid pipe leaves it valid and puts bytes after those that are in it, in order: all
-- of them if it returns, and otherwise as many as make the pipe full; it then sleeps, unless the
-- read end is closed or the process killed, when it fails.
pub pipewrite-WritesInOrder :
    (killed : Bool) (bytes : List ℕ) (p : Pipe)
    → IsValid p
    → WritesInOrder killed bytes p (pipewrite killed bytes p)
unfolding pipewrite
pipewrite-WritesInOrder killed [] p v = (v, sym (append-nil (contents p)))
pipewrite-WritesInOrder killed (b ∷ bytes) p v = elim (Bool-cases (is_full p)) [
  | inr z ↦
      let (v', _, e) = put-IsValid b p v z in
      rw (z, pipewrite)
        (extend killed b bytes p (pipewrite killed bytes (put b p)) e
          (pipewrite-WritesInOrder killed bytes (put b p) v'))
  | inl z ↦ elim (Bool-cases (not p.readopen || killed)) [
    | inl y ↦
        rw (z, pipewrite) (rw (y) ([], b ∷ bytes, refl, (v, sym (append-nil (contents p))), z, y))
    | inr y ↦ rw (z, pipewrite) (rw (y) ([], refl, (v, sym (append-nil (contents p))), z, y))
  ]
]

-- `p->nread++`
abbrev advance : Pipe → Pipe
advance p = record p { nread = (p.nread + 1) % u32 }

contents_lem :
    (p : Pipe)
    → IsValid p
    → p.nread == p.nwrite ≡ false
    → IsValid (advance p)
      × (count p ≡ suc (count (advance p)))
      × (contents p ≡ p.buffer (p.nread % pipe_size) ∷ contents (advance p))
unfolding bytes_from
contents_lem p (r, w, c) some_left =
    let shrunk : count p ≡ suc (count (advance p)) = ground arith in
    ((omega arith, w, omega arith), shrunk, rw (shrunk) refl)

contents_of_empty :
    (p : Pipe) → IsValid p → p.nread == p.nwrite ≡ true → (count p ≡ 0) × (contents p ≡ [])
unfolding bytes_from
contents_of_empty p (r, w, c) empty =
    let none_left : count p ≡ 0 = ground arith in (none_left, rw (none_left) refl)

-- How a read leaves the pipe: the bytes are the first ones in it, as many as there are up to n, and
-- the others stay.
abbrev pub Dequeued : ℕ → Pipe → List ℕ → Pipe → Type 0
Dequeued n p bytes p' =
    IsValid p' × (contents p ≡ bytes ++ contents p') × (length bytes ≡ min n (count p))

read_from-Dequeued :
    (n : ℕ) (p : Pipe) → IsValid p → Dequeued n p (read_from n p).0 (read_from n p).1
unfolding read_from
read_from-Dequeued zero p v = (v, refl, omega arith)
read_from-Dequeued (suc n) p v = elim (Bool-cases (p.nread == p.nwrite)) [
  | inl z ↦
      let (none_left, empty) = contents_of_empty p v z in rw (z, read_from) (v, refl, omega arith)
  | inr z ↦
      let (v', shrunk, e) = contents_lem p v z in
      let (v'', rest, long) = read_from-Dequeued n (advance p) v' in
      rw (z, read_from) (v'', e ∙ ap (λ l. p.buffer (p.nread % pipe_size) ∷ l) rest, omega arith)
]

abbrev pub ReadsInOrder : Bool → ℕ → Pipe → Read → Type 0
ReadsInOrder killed n p (bytes_read bytes p') =
    Dequeued n p bytes p' × ((count p ≡ 0) → p.writeopen ≡ false)
ReadsInOrder killed n p (read_asleep p') =
    (p' ≡ p) × (contents p ≡ []) × (p.writeopen ≡ true) × (killed ≡ false)
ReadsInOrder killed n p (read_failed p') =
    (p' ≡ p) × (contents p ≡ []) × (p.writeopen ≡ true) × (killed ≡ true)

empty-ReadsInOrder :
    (killed w : Bool) (n : ℕ) (p : Pipe)
    → IsValid p
    → p.writeopen ≡ w
    → count p ≡ 0
    → contents p ≡ []
    → ReadsInOrder killed n p (
        if w
        then (if killed then read_failed p else read_asleep p)
        else bytes_read (read_from n p).0 (read_from n p).1)
empty-ReadsInOrder killed false n p v e none_left empty = (read_from-Dequeued n p v, λ _. e)
empty-ReadsInOrder true true n p v e none_left empty = (refl, empty, e, refl)
empty-ReadsInOrder false true n p v e none_left empty = (refl, empty, e, refl)

-- A read of at most n bytes of a valid pipe takes the first ones in it, as many as there are up to
-- n, leaves the others and leaves it valid; it takes none of an empty pipe only when the write end is closed, and
-- otherwise sleeps, or fails if the process is killed.
pub piperead-ReadsInOrder :
    (killed : Bool) (n : ℕ) (p : Pipe) → IsValid p → ReadsInOrder killed n p (piperead killed n p)
unfolding piperead
piperead-ReadsInOrder killed n p v = elim (Bool-cases (p.nread == p.nwrite)) [
  | inr z ↦
      let (_, shrunk, _) = contents_lem p v z in
      rw (z, piperead) (read_from-Dequeued n p v, λ e. absurd (omega arith))
  | inl z ↦
      let (none_left, empty) = contents_of_empty p v z in
      rw (z, piperead) (empty-ReadsInOrder killed p.writeopen n p v refl none_left empty)
]
