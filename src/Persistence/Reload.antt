-- ===== src/Persistence/Reload.antt =====
-- What a store writes is what the next one reads.
use codex_hooks.Base.{String, true, false, ◌≡◌, refl, is_blank, ok, Outcome-cases, inl, inr}
use codex_hooks.Base.Exec.{◌>>=◌}
use codex_hooks.Base.Exec.Ends.{Returned, Returned-subst}
use codex_hooks.Protocol.Value.{get, get_field, is_object}
use codex_hooks.Persistence.Store.{
  FileSystem, FileState, FileStore, state_value, loaded, on_disk, take_text, load, read_state,
  after_load, open_store, temporary_path, write_state, persist, set_state,
}

-- The maps of the state are objects.
pub record IsState (s : FileState) : Type 0 where
  pub has_events : is_object s.events ≡ true
  pub has_intents : is_object s.intents ≡ true
  pub has_controls : is_object s.controls ≡ true

module _ {D : Type 0} where
  -- A file that was written beside another and then renamed to it is read back as it was written.
  abbrev pub IsRenamed : FileSystem D → Type 0
  IsRenamed files =
      (temporary path text : String) (d : D)
      → (files.write_text temporary text d).0 ≡ ok tt
      → (files.rename temporary path (files.write_text temporary text d).1).0 ≡ ok tt
      → (files.read_text path
          (files.rename temporary path (files.write_text temporary text d).1).1).0
        ≡ ok text

  -- What JSON prints of a state is parsed to that state.
  abbrev pub IsPrinted : FileSystem D → FileState → Type 0
  IsPrinted files s = files.parse (files.print (state_value s)) ≡ ok (state_value s)

loaded-state_value : (s : FileState) → IsState s → loaded (state_value s) ≡ s
unfolding loaded get get_field
loaded-state_value s good = rw (good.has_events, good.has_intents, good.has_controls) refl

module _ {D : Type 0} (files : FileSystem D) (renames : IsRenamed files) where
  -- Opening the file on the disk gives the state of the store.
  record Reopens (path : String) (s : FileState) (d : D) : Type 0 where
    opens : (open_store files path d).0 ≡ ok tt
    same : (open_store files path d).1.state ≡ s

  read-Reopens :
      (path : String) (s : FileState) (d : D)
      → IsState s
      → IsPrinted files s
      → is_blank path ≡ false
      → (files.read_text path d).0 ≡ ok (files.print (state_value s))
      → Reopens path s d
  unfolding open_store load read_state take_text on_disk set_state after_load ◌>>=◌
  read-Reopens path s d good printed named found = record {
    opens = rw (named, found, printed) refl;
    same = rw (named, found, printed) (loaded-state_value s good);
  }

  -- What a write to the disk leaves.
  write_state-Reopens :
      (s : FileState) (t : FileStore D)
      → IsState s
      → IsPrinted files s
      → is_blank t.file_path ≡ false
      → Returned (λ u t'. Reopens t.file_path s t'.disk) (write_state files t.file_path s t)
  unfolding write_state on_disk ◌>>=◌
  write_state-Reopens s t good printed named =
      let path = t.file_path in
      let text = files.print (state_value s) in
      let temporary = temporary_path files path in
      let made = files.make_directory (files.directory_of path) t.disk in
      let written = files.write_text temporary text made.1 in
      let moved = files.rename temporary path written.1 in
      elim (Outcome-cases made.0) [
        | inr (x, e) ↦ rw e tt
        | inl (u, e) ↦ elim (Outcome-cases written.0) [
          | inr (x, f) ↦ rw (e, f) tt
          | inl (v, f) ↦ elim (Outcome-cases moved.0) [
            | inr (x, g) ↦ rw (e, f, g) tt
            | inl (w, g) ↦
                rw (e, f, g)
                  (read-Reopens path s moved.1 good printed named
                    (renames temporary path text made.1 f g))
          ]
        ]
      ]

  -- Where a store whose maps are objects returns from writing its file, a store that is then opened on
  -- that file has the same state. The file system is to give back what was renamed to the file, and
  -- JSON the state that it printed.
  pub persist-open_store :
      (t t' : FileStore D)
      → IsState t.state
      → IsPrinted files t.state
      → is_blank t.file_path ≡ false
      → persist files t ≡ (ok tt, t')
      → ((open_store files t.file_path t'.disk).0 ≡ ok tt)
        × ((open_store files t.file_path t'.disk).1.state ≡ t.state)
  unfolding persist
  persist-open_store t t' good printed named returned =
      let reopens =
        Returned-subst (λ u s. Reopens t.file_path t.state s.disk) _ tt t'
          (write_state-Reopens t.state t good printed named) returned in
      (reopens.opens, reopens.same)
