-- ===== src/Tun/Queues.antt =====
-- The queues of the device: none is lost when opening fails, and packets go round them.
use hashshashin.Base.{
  ℕ, zero, suc, ◌+◌, ◌-◌, ◌^◌, ◌%◌, ◌≤◌, ◌<◌, ◌≡◌, refl, sym, ◌∙◌, ap, Bool, true, false, List, [],
  ◌∷◌, ◌++◌, Option, none, some, arith, ◌==◌, if◌then◌else◌, length, get_elem?, append_assoc,
  append-nil, length-append, subst, ap₂, ◌⊎◌, inl, inr, ==_iff,
}
use hashshashin.Base.Int.{ℤ, pos, negsuc}
use hashshashin.Tun.{
  queue_count, Opened, TunDevice, after_queue, open_queues, fall_back, open_tun, write_queue,
  write_many,
}

-- The number of queues that a configuration asks for: one at least.
abbrev pub wanted : ℤ → ℕ
wanted (pos zero) = 1
wanted (pos (suc n)) = suc n
wanted (negsuc n) = 1

queue_count-wanted : (count : ℤ) → queue_count count ≡ wanted count
unfolding queue_count
queue_count-wanted (pos zero) = refl
queue_count-wanted (pos (suc n)) = ground arith
queue_count-wanted (negsuc n) = ground arith

module _ {ℓ} {F : Type ℓ} where
  get_elem?-length : (xs : List F) (i : ℕ) → i < length xs → (f : F) × (get_elem? xs i ≡ some f)
  get_elem?-length [] i below = absurd (omega arith)
  get_elem?-length (x ∷ xs) zero below = (x, refl)
  get_elem?-length (x ∷ xs) (suc i) below = get_elem?-length xs i (omega arith)

  write_many_index :
      (k : ℕ) (t : TunDevice F)
      → 1 ≤ length t.queues
      → t.write_count < 2 ^ 32
      → write_many k t ≡ get_elem? t.queues ((t.write_count + k) % 2 ^ 32 % length t.queues)
  unfolding write_many write_queue
  write_many_index zero t some_queue below =
      let full : length t.queues == 0 ≡ false = ground arith in
      let same : ((t.write_count + 1) % 2 ^ 32 + 2 ^ 32 - 1) % 2 ^ 32
          ≡ (t.write_count + 0) % 2 ^ 32 =
        omega arith in
      rw (full, write_many, write_queue) (ap (λ x. get_elem? t.queues (x % length t.queues)) same)
  write_many_index (suc k) t some_queue below =
      let full : length t.queues == 0 ≡ false = ground arith in
      let next : TunDevice F = record t { write_count = (t.write_count + 1) % 2 ^ 32 } in
      let same : ((t.write_count + 1) % 2 ^ 32 + k) % 2 ^ 32 ≡ (t.write_count + suc k) % 2 ^ 32 =
        omega arith in
      rw (full, write_many, write_queue)
        (write_many_index k next some_queue (omega arith)
          ∙ ap (λ x. get_elem? t.queues (x % length t.queues)) same)

  -- On a device with queues, whatever number k of packets has been written, the next is written to a
  -- queue, the one whose number is the 32-bit counter k places on, modulo the number of queues.
  pub write_many-get_elem? :
      (k : ℕ) (t : TunDevice F)
      → 1 ≤ length t.queues
      → t.write_count < 2 ^ 32
      → (f : F) × ((write_many k t ≡ some f)
          × (get_elem? t.queues ((t.write_count + k) % 2 ^ 32 % length t.queues) ≡ some f))
  write_many-get_elem? k t some_queue below =
      let n = (t.write_count + k) % 2 ^ 32 % length t.queues in
      let (f, found) = get_elem?-length t.queues n (omega arith) in
      (f, (write_many_index k t some_queue below ∙ found, found))

  abbrev up_to : List F → Option F → List F
  up_to more none = []
  up_to more (some f) = f ∷ more

  -- The files that n calls give, up to the first refusal.
  abbrev pub opened_by : (ℕ → Option F) → ℕ → ℕ → List F
  opened_by ask zero i = []
  opened_by ask (suc n) i = up_to (opened_by ask n (suc i)) (ask i)

  -- All n files are kept and none is closed, or all that were opened are closed.
  IsLoop : ℕ → List F → Option (List F) → List F → Type ℓ
  IsLoop n all (some files) closed = (files ≡ all) × ((length files ≡ n) × (closed ≡ []))
  IsLoop n all none closed = closed ≡ all

  after_queue-IsLoop :
      (n : ℕ) (more : List F → Opened F) (later files : List F) (o : Option F)
      → ((xs : List F)
          → length xs ≡ suc (length files)
          → IsLoop n (xs ++ later) (more xs).queues (more xs).closed)
      → IsLoop n
          (files ++ up_to later o)
          (after_queue more files o).queues
          (after_queue more files o).closed
  unfolding after_queue IsLoop
  after_queue-IsLoop n more later files none h = sym (append-nil files)
  after_queue-IsLoop n more later files (some f) h =
      subst (λ x. IsLoop n x (more (files ++ f ∷ [])).queues (more (files ++ f ∷ [])).closed)
        (append_assoc files (f ∷ []) later)
        (h (files ++ f ∷ []) (omega (arith, length-append files (f ∷ []))))

  open_queues-IsLoop :
      (ask : ℕ → Option F) (n i m : ℕ) (files : List F)
      → length files + n ≡ m
      → IsLoop m
          (files ++ opened_by ask n i)
          (open_queues ask n i files).queues
          (open_queues ask n i files).closed
  unfolding open_queues IsLoop
  open_queues-IsLoop ask zero i m files e = (sym (append-nil files), (omega arith, refl))
  open_queues-IsLoop ask (suc n) i m files e =
      after_queue-IsLoop m (open_queues ask n (suc i)) (opened_by ask n (suc i)) files (ask i)
        (λ xs same. open_queues-IsLoop ask n (suc i) m xs (omega arith))

  -- Either try, or neither.
  abbrev pub IsOpened : ℕ → List F → List F → Option (List F) → List F → Type ℓ
  IsOpened n first second (some files) closed =
      ((files ≡ first) × ((length files ≡ n) × (closed ≡ [])))
      ⊎ ((files ≡ second) × ((length files ≡ 1) × (closed ≡ first)))
  IsOpened n first second none closed = ((n ≡ 1) × (closed ≡ first)) ⊎ (closed ≡ first ++ second)

  fall_back-IsOpened :
      (ask_single : ℕ → Option F) (n : ℕ) (first : List F) (o : Option (List F)) (closed : List F)
      → IsLoop n first o closed
      → IsOpened n first
          (opened_by ask_single 1 0)
          (fall_back ask_single n o closed).queues
          (fall_back ask_single n o closed).closed
  unfolding fall_back IsLoop
  fall_back-IsOpened ask_single n first (some files) closed h = inl h
  fall_back-IsOpened ask_single n first none closed h =
      go (n == 1) refl (open_queues ask_single 1 0 []) (open_queues-IsLoop ask_single 1 0 1 [] refl)
    where
      second : List F
      second = opened_by ask_single 1 0

      done : Opened F → Bool → Opened F
      done again b =
          if b
          then record { queues = none; closed = closed }
          else record { queues = again.queues; closed = closed ++ again.closed }

      go :
          (b : Bool)
          → n == 1 ≡ b
          → (again : Opened F) → IsLoop 1 second again.queues again.closed
          → IsOpened n first second (done again b).queues (done again b).closed
      go true e again l = inl (ground (arith, ==_iff n 1), h)
      go false e again l = pick again.queues again.closed l
        where
          pick :
              (o : Option (List F)) (c : List F)
              → IsLoop 1 second o c
              → IsOpened n first second o (closed ++ c)
          pick (some files) c (same, (one, empty)) =
              inr (same, (one, ap (λ x. closed ++ x) empty ∙ append-nil closed ∙ h))
          pick none c all = inr (ap₂ (λ x y. x ++ y) h all)

  -- openTun ends with the queues asked for, or one for a count below 1, or with a single queue and those of
  -- the first try closed, or without a device and with every file that was opened closed.
  pub open_tun-IsOpened :
      (ask ask_single : ℕ → Option F) (count : ℤ)
      → IsOpened
          (wanted count)
          (opened_by ask (wanted count) 0)
          (opened_by ask_single 1 0)
          (open_tun ask ask_single count).queues
          (open_tun ask ask_single count).closed
  unfolding open_tun
  open_tun-IsOpened ask ask_single count =
      let n = queue_count count in
      let first = open_queues ask n 0 [] in
      subst
        (λ k.
          IsOpened k (opened_by ask k 0) (opened_by ask_single 1 0)
            (open_tun ask ask_single count).queues (open_tun ask ask_single count).closed)
        (queue_count-wanted count)
        (fall_back-IsOpened ask_single n (opened_by ask n 0) first.queues first.closed
          (open_queues-IsLoop ask n 0 n [] (omega arith)))
