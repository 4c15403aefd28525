-- ===== src/Audit/Chain.antt =====
-- The chain of glassbox/audit.py: what it writes, read back, and two files that end in the same hash.
use mathlib.Core.Option.{some_inj}
use glassbox_ai_quant.Prelude.{
  ◌==◌, if◌then◌else◌, Bool-cases, length, IsIn, lookup-insert, ℕ, ◌+◌, ◌≡◌, refl, sym, ap, ◌∙◌,
  ◌≢◌, ◌↔◌, ◌⊎◌, inl, inr, true, false, Option, none, some, List, [], ◌∷◌, ◌++◌, arith,
}
use glassbox_ai_quant.Audit.{
  AuditRecord, Format, AuditLog, Checked, checked, content, restarted, empty_log, file_of,
  last_hash, prev_for, append, verify_line, verify_from, verify_chain, AuditStep, appended, restart,
  run,
}

module _ {Line : Type 0} {Hash : Type 0} {Body : Type 0} (F : Format Line Hash Body) where
  -- JSON reads back what it wrote, and the two comparisons compare.
  pub record IsFaithful : Type 0 where
    pub loads-canonical : (r : AuditRecord Hash Body) → F.loads (F.canonical r) ≡ some r
    pub line_iff : (l m : Line) → (F.same_line l m ≡ true) ↔ (l ≡ m)
    pub hash_iff : (g h : Hash) → (F.same_hash g h ≡ true) ↔ (g ≡ h)

  -- What a line that verifies says.
  record IsLink (prev : Hash) (l : Line) (o : Option (AuditRecord Hash Body)) : Type 0 where
    entry : AuditRecord Hash Body
    reads : o ≡ some entry
    linked : F.same_hash entry.prev_hash prev ≡ true
    canon : F.same_line (F.canonical entry) l ≡ true

  IsLink-of :
      (prev : Hash) (n m : ℕ) (l : Line) (o : Option (AuditRecord Hash Body)) (rest : Checked)
      → verify_line F prev n l o rest ≡ checked true m
      → IsLink prev l o × (rest ≡ checked true m)
  IsLink-of prev n m l none rest e = absurd (ground (arith, e))
  IsLink-of prev n m l (some r) rest e = elim (Bool-cases (F.same_hash r.prev_hash prev)) [
    | inr h ↦ absurd (ground (arith, (rw h at e)))
    | inl h ↦ elim (Bool-cases (F.same_line (F.canonical r) l)) [
      | inr c ↦ absurd (ground (arith, (rw (h, c) at e)))
      | inl c ↦ (record { entry = r; reads = refl; linked = h; canon = c }, (rw (h, c) at e))
    ]
  ]

  link_verifies :
      (prev : Hash) (n : ℕ) (l : Line) (o : Option (AuditRecord Hash Body)) (rest : Checked)
      → IsLink prev l o
      → verify_line F prev n l o rest ≡ rest
  link_verifies prev n l o rest k = rw (k.reads, k.linked, k.canon) refl

  abbrev next_line : Hash → Body → Line
  next_line prev body = F.canonical (record { prev_hash = prev; body = body })

  module _ (faithful : IsFaithful) where
    next-IsLink :
        (prev : Hash) (body : Body)
        → IsLink prev (next_line prev body) (F.loads (next_line prev body))
    next-IsLink prev body = record {
      entry = record { prev_hash = prev; body = body };
      reads = faithful.loads-canonical _;
      linked = (faithful.hash_iff prev prev).1 refl;
      canon = (faithful.line_iff _ _).1 refl;
    }

    verify-append :
        (ls : List Line) (prev : Hash) (n m : ℕ) (body : Body)
        → verify_from F prev n ls ≡ checked true m
        → verify_from F prev n (ls ++ (next_line (last_hash F prev ls) body ∷ []))
          ≡ checked true (m + 1)
    unfolding verify_from last_hash
    verify-append [] prev n m body e =
        link_verifies prev n _ _ _ (next-IsLink prev body) ∙ ground (arith, e)
    verify-append (l ∷ ls) prev n m body e =
        let (link, rest) = IsLink-of prev n m l (F.loads l) _ e in
        link_verifies prev n l (F.loads l) _ link
        ∙ verify-append ls (F.sha256 l) (n + 1) m body rest

  last_hash-append :
      (ls : List Line) (h : Hash) (l : Line) → last_hash F h (ls ++ (l ∷ [])) ≡ F.sha256 l
  unfolding last_hash
  last_hash-append [] h l = refl
  last_hash-append (m ∷ ls) h l = last_hash-append ls (F.sha256 m) l

  length-snoc : (ls : List Line) (l : Line) → length (ls ++ (l ∷ [])) ≡ length ls + 1
  length-snoc [] l = refl
  length-snoc (m ∷ ls) l = omega (arith, length-snoc ls l)

  -- Every file verifies, and what is cached of a day is the hash of its file's last line.
  record IsSound (log : AuditLog Line Hash) : Type 0 where
    verifies : (d : ℕ) → verify_chain F (file_of F d log) ≡ checked true (length (file_of F d log))
    cached : (d : ℕ) → prev_for F d log ≡ last_hash F F.genesis (file_of F d log)

  file_of-append :
      (j d : ℕ) (body : Body) (log : AuditLog Line Hash)
      → file_of F j (append F d body log) ≡ (
          if j == d
          then file_of F d log ++ (next_line (prev_for F d log) body ∷ [])
          else file_of F j log)
  unfolding append
  file_of-append j d body log =
      ap content (lookup-insert d j _ log.files)
      ∙ elim (Bool-cases (j == d)) [ inl e ↦ rw e refl | inr e ↦ rw e refl ]

  file_of-append_same :
      (j d : ℕ) (body : Body) (log : AuditLog Line Hash)
      → (j == d) ≡ true
      → file_of F j (append F d body log)
        ≡ file_of F d log ++ (next_line (prev_for F d log) body ∷ [])
  file_of-append_same j d body log e = file_of-append j d body log ∙ rw e refl

  file_of-append_other :
      (j d : ℕ) (body : Body) (log : AuditLog Line Hash)
      → (j == d) ≡ false
      → file_of F j (append F d body log) ≡ file_of F j log
  file_of-append_other j d body log e = file_of-append j d body log ∙ rw e refl

  cached-append :
      (j d : ℕ) (body : Body) (log : AuditLog Line Hash)
      → prev_for F j (append F d body log)
        ≡ last_hash F F.genesis (file_of F j (append F d body log))
  unfolding append
  cached-append j d body log = elim (Bool-cases (d == j)) [
    | inl e ↦ rw e (
        sym (last_hash-append (file_of F d log) F.genesis _)
        ∙ ap (last_hash F F.genesis) (sym (file_of-append_same j d body log (ground (arith, e)))))
    | inr e ↦ rw e refl
  ]

  module _ (faithful : IsFaithful) where
    append-verifies :
        (d : ℕ) (body : Body) (log : AuditLog Line Hash)
        → IsSound log
        → let ls = file_of F d log ++ (next_line (prev_for F d log) body ∷ []) in
          verify_chain F ls ≡ checked true (length ls)
    unfolding verify_chain
    append-verifies d body log s =
        let ls = file_of F d log in
        ap (λ (h : Hash). verify_from F F.genesis 0 (ls ++ (next_line h body ∷ []))) (s.cached d)
        ∙ verify-append faithful ls F.genesis 0 (length ls) body
            (unfold verify_chain in s.verifies d)
        ∙ ap (checked true) (sym (length-snoc ls _))

    append-IsSound :
        (d : ℕ) (body : Body) (log : AuditLog Line Hash)
        → IsSound log
        → IsSound (append F d body log)
    append-IsSound d body log s = record {
      verifies = λ j. elim (Bool-cases (j == d)) [
        | inl e ↦ rw (file_of-append_same j d body log e) (append-verifies d body log s)
        | inr e ↦ rw (file_of-append_other j d body log e) (s.verifies j)
      ];
      cached = λ j. cached-append j d body log;
    }

    restarted-IsSound : (log : AuditLog Line Hash) → IsSound log → IsSound (restarted log)
    restarted-IsSound log s = record { verifies = s.verifies; cached = λ j. refl }

    run-IsSound :
        (steps : List (AuditStep F)) (log : AuditLog Line Hash)
        → IsSound log
        → IsSound (run F steps log)
    unfolding run
    run-IsSound [] log s = s
    run-IsSound (appended d body ∷ steps) log s = run-IsSound steps _ (append-IsSound d body log s)
    run-IsSound (restart ∷ steps) log s = run-IsSound steps _ (restarted-IsSound log s)

    empty-IsSound : IsSound empty_log
    unfolding verify_chain verify_from last_hash
    empty-IsSound = record { verifies = λ d. refl; cached = λ d. refl }

    -- Whatever a role appends, over any days in any order and with any restarts of its process, each
    -- of its files verifies, and all of its records are counted.
    pub written_log_verifies :
        (steps : List (AuditStep F)) (d : ℕ)
        → let ls = file_of F d (run F steps empty_log) in
          verify_chain F ls ≡ checked true (length ls)
    written_log_verifies steps d = (run-IsSound steps empty_log empty-IsSound).verifies d

  verified_count :
      (prev : Hash) (n m : ℕ) (ls : List Line)
      → verify_from F prev n ls ≡ checked true m
      → m ≡ n + length ls
  unfolding verify_from
  verified_count prev n m [] e = ground (arith, e)
  verified_count prev n m (l ∷ ls) e =
      let (link, rest) = IsLink-of prev n m l (F.loads l) _ e in
      omega (arith, verified_count (F.sha256 l) (n + 1) m ls rest)

  -- A line of one file and another line of the other file that have the same hash.
  pub record Collision (a : List Line) (b : List Line) : Type 0 where
    pub first : Line
    pub second : Line
    pub in_first : IsIn first a
    pub in_second : IsIn second b
    pub differ : first ≢ second
    pub same_hash : F.sha256 first ≡ F.sha256 second

  later_Collision : (x y : Line) (a b : List Line) → Collision a b → Collision (x ∷ a) (y ∷ b)
  later_Collision x y a b c = record {
    first = c.first;
    second = c.second;
    in_first = inr c.in_first;
    in_second = inr c.in_second;
    differ = c.differ;
    same_hash = c.same_hash;
  }

  module _ (faithful : IsFaithful) where
    same_prev : (p q : Hash) (l : Line) → IsLink p l (F.loads l) → IsLink q l (F.loads l) → p ≡ q
    same_prev p q l a b =
        let same = some_inj.0 (sym a.reads ∙ b.reads) in
        sym ((faithful.hash_iff _ p).0 a.linked)
        ∙ ap (λ (r : AuditRecord Hash Body). r.prev_hash) same
        ∙ (faithful.hash_iff _ q).0 b.linked

    apart : (x y : Line) → F.same_line x y ≡ false → x ≢ y
    apart x y e same = absurd (ground (arith, (faithful.line_iff x y).1 same, e))

    tamper_step :
        (p q : Hash) (x y : Line) (a b : List Line)
        → IsLink p x (F.loads x)
        → IsLink q y (F.loads y)
        → ((F.sha256 x ≡ F.sha256 y) × (a ≡ b)) ⊎ Collision a b
        → ((p ≡ q) × ((x ∷ a) ≡ (y ∷ b))) ⊎ Collision (x ∷ a) (y ∷ b)
    tamper_step p q x y a b f g (inr c) = inr (later_Collision x y a b c)
    tamper_step p q x y a b f g (inl (h, rest)) = elim (Bool-cases (F.same_line x y)) [
      | inl e ↦
          let same = (faithful.line_iff x y).0 e in
          inl (same_prev p q y (rw (← same) f) g, rw (same, rest) refl)
      | inr e ↦ inr (record {
        first = x;
        second = y;
        in_first = inl refl;
        in_second = inl refl;
        differ = apart x y e;
        same_hash = h;
      })
    ]

    tamper_lem :
        (p q : Hash) (n m i j : ℕ) (a b : List Line)
        → verify_from F p n a ≡ checked true i
        → verify_from F q m b ≡ checked true j
        → length a ≡ length b
        → last_hash F p a ≡ last_hash F q b
        → ((p ≡ q) × (a ≡ b)) ⊎ Collision a b
    unfolding verify_from last_hash
    tamper_lem p q n m i j [] [] e f s h = inl (h, refl)
    tamper_lem p q n m i j [] (y ∷ b) e f s h = absurd (omega (arith, s))
    tamper_lem p q n m i j (x ∷ a) [] e f s h = absurd (omega (arith, s))
    tamper_lem p q n m i j (x ∷ a) (y ∷ b) e f s h =
        let (first, rest) = IsLink-of p n i x (F.loads x) _ e in
        let (first', rest') = IsLink-of q m j y (F.loads y) _ f in
        tamper_step p q x y a b first first'
          (tamper_lem (F.sha256 x) (F.sha256 y) _ _ i j a b rest rest' (omega (arith, s)) h)

    -- If JSON reads back what it wrote, then two files that verify with the same number of records
    -- and whose last lines have the same hash are the same file, or else a line of the one and a
    -- different line of the other have the same hash.
    pub verified_files_agree :
        (a b : List Line) (n : ℕ)
        → verify_chain F a ≡ checked true n
        → verify_chain F b ≡ checked true n
        → last_hash F F.genesis a ≡ last_hash F F.genesis b
        → (a ≡ b) ⊎ Collision a b
    unfolding verify_chain
    verified_files_agree a b n e f h = files_or (
        tamper_lem F.genesis F.genesis 0 0 n n a b e f
          (omega (arith, verified_count F.genesis 0 n a e, verified_count F.genesis 0 n b f)) h)
      where
        files_or : ((F.genesis ≡ F.genesis) × (a ≡ b)) ⊎ Collision a b → (a ≡ b) ⊎ Collision a b
        files_or (inl same) = inl same.1
        files_or (inr c) = inr c
