-- ===== src/Audit.antt =====
-- glassbox/audit.py: the hash-chained audit log of one role. JSON and SHA-256 are parameters, a Format;
-- of a record the hash of the record before it is kept apart from the rest, its body. A day names the
-- role's file of that day.
use glassbox_ai_quant.Prelude.{
  ◌==◌, if◌then◌else◌, Dict, lookup, insert, ℕ, ◌+◌, Bool, true, false, not, Option, none, some,
  List, [], ◌∷◌, ◌++◌,
}
pub mod Chain

pub record AuditRecord (Hash : Type 0) (Body : Type 0) : Type 0 where
  pub prev_hash : Hash
  pub body : Body

-- `_canonical`, `json.loads`, which may raise, `hashlib.sha256`, the equality of texts, and GENESIS.
pub record Format (Line : Type 0) (Hash : Type 0) (Body : Type 0) : Type 0 where
  pub canonical : AuditRecord Hash Body → Line
  pub loads : Line → Option (AuditRecord Hash Body)
  pub sha256 : Line → Hash
  pub same_line : Line → Line → Bool
  pub same_hash : Hash → Hash → Bool
  pub genesis : Hash

-- The role's files, and what its process has cached: `_prev_hash` and `_path`.
pub record AuditLog (Line : Type 0) (Hash : Type 0) : Type 0 where
  pub files : Dict (List Line)
  pub prev_hash : Option Hash
  pub path : Option ℕ

-- How `verify_chain` ends: what it returns, or that a line did not parse.
pub data Checked : Type 0 where
  checked : Bool → ℕ → Checked
  unparsed : Checked

abbrev pub content {ℓ} : {Line : Type ℓ} → Option (List Line) → List Line
content none = []
content (some ls) = ls

abbrev pub same_day : Option ℕ → ℕ → Bool
same_day none d = false
same_day (some e) d = e == d

-- A process that starts has nothing cached.
abbrev pub restarted : {Line : Type 0} {Hash : Type 0} → AuditLog Line Hash → AuditLog Line Hash
restarted log = record log { prev_hash = none; path = none }

-- A role that has written nothing.
abbrev pub empty_log : {Line : Type 0} {Hash : Type 0} → AuditLog Line Hash
empty_log = record { files = []; prev_hash = none; path = none }

module _ {Line : Type 0} {Hash : Type 0} {Body : Type 0} (F : Format Line Hash Body) where
  -- The file of a day; a file that is not there is an empty one.
  abbrev pub file_of : ℕ → AuditLog Line Hash → List Line
  file_of d log = content (lookup d log.files)

  -- `_last_hash`, of the hash that an empty file stands for
  unfoldable pub last_hash : Hash → List Line → Hash
  last_hash h [] = h
  last_hash h (l ∷ ls) = last_hash (F.sha256 l) ls

  abbrev pub cached_or : List Line → Option Hash → Bool → Hash
  cached_or file (some h) true = h
  cached_or file _ _ = last_hash F.genesis file

  -- The hash that the next record of the day embeds.
  abbrev pub prev_for : ℕ → AuditLog Line Hash → Hash
  prev_for d log = cached_or (file_of d log) log.prev_hash (same_day log.path d)

  -- `AuditLog.append`
  unfoldable pub append : ℕ → Body → AuditLog Line Hash → AuditLog Line Hash
  append d body log =
      let line = F.canonical (record { prev_hash = prev_for d log; body = body }) in
      record {
        files = insert d (file_of d log ++ (line ∷ [])) log.files;
        prev_hash = some (F.sha256 line);
        path = some d;
      }

  -- The body of the loop of `verify_chain`, and what follows it.
  abbrev pub verify_line : Hash → ℕ → Line → Option (AuditRecord Hash Body) → Checked → Checked
  verify_line prev count l none rest = unparsed
  verify_line prev count l (some r) rest =
      if not (F.same_hash r.prev_hash prev)
      then checked false count
      else if not (F.same_line (F.canonical r) l)
      then checked false count
      else rest

  unfoldable pub verify_from : Hash → ℕ → List Line → Checked
  verify_from prev count [] = checked true count
  verify_from prev count (l ∷ ls) =
      verify_line prev count l (F.loads l) (verify_from (F.sha256 l) (count + 1) ls)

  -- `verify_chain`
  unfoldable pub verify_chain : List Line → Checked
  verify_chain ls = verify_from F.genesis 0 ls

  -- What `verify_day` adds up: the records checked and the names of the broken files. It raises where
  -- `verify_chain` does.
  abbrev pub add_file : ℕ → Checked → Option (ℕ × List ℕ) → Option (ℕ × List ℕ)
  add_file name (checked true n) (some (total, broken)) = some (n + total, broken)
  add_file name (checked false n) (some (total, broken)) = some (n + total, name ∷ broken)
  add_file name _ _ = none

  -- `verify_day`, of the day's files with their names
  unfoldable pub verify_day : Dict (List Line) → Option (ℕ × List ℕ)
  verify_day [] = some (0, [])
  verify_day ((name, ls) ∷ files) = add_file name (verify_chain ls) (verify_day files)

  -- What happens to a role's log: a record on a day, or a new process.
  pub data AuditStep : Type 0 where
    appended : ℕ → Body → AuditStep
    restart : AuditStep

  unfoldable pub run : List AuditStep → AuditLog Line Hash → AuditLog Line Hash
  run [] log = log
  run (appended d body ∷ steps) log = run steps (append d body log)
  run (restart ∷ steps) log = run steps (restarted log)
