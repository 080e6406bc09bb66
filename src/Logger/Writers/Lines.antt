-- ===== src/Logger/Writers/Lines.antt =====
-- logger.go, writers/file.go: from the calls of a logger to the text of its file.
use vss.Prelude.{
  Bytes, List, [], ◌∷◌, ◌++◌, ◌≡◌, refl, sym, ap, All, ◌∙◌, append_assoc, append-nil, length, true,
  false, some, if◌then◌else◌, Bool-cases, inl, inr,
}
use vss.Prelude.Int.{ℤ, pos}
use vss.Text.{spaces}
use vss.Logger.Common.{Clock, ends_line, ident}
use vss.Logger.Log.{Message, Logger, log, closed, message_of}
use vss.Logger.Writers.{LogFile, FileWriter, header, less, file_write}

-- One call of Log: what time.Now gives at it, and its arguments.
pub record Call (T M : Type 0) : Type 0 where
  pub now : T
  pub level : ℤ
  pub name : Bytes
  pub msgs : List M

-- A file keeps the texts that are written to it, one after the other.
pub record IsTextFile {R : Type 0} (ops : LogFile R) (text : R → Bytes) : Type 0 where
  pub text-write : (s : Bytes) (r : R) → text (ops.write_string s r) ≡ text r ++ s

ends_line-append : (s : Bytes) → ends_line (s ++ 10 ∷ []) ≡ true
unfolding ends_line
ends_line-append [] = refl
ends_line-append (c ∷ []) = refl
ends_line-append (c ∷ d ∷ s) = ends_line-append (d ∷ s)

module _ {T M : Type 0} (clock : Clock T) (any_to_string : M → Bytes) where
  ends_line-closed : (msg : Bytes) → ends_line (closed clock any_to_string false msg) ≡ true
  ends_line-closed msg = elim (Bool-cases (ends_line msg)) [
    | inl e ↦ rw e e
    | inr e ↦ rw e (ends_line-append msg)
  ]

  -- The message of a call that keeps no line open, and those of all calls.
  abbrev message_at : Logger T → Call T M → Message T
  message_at l c = message_of clock any_to_string false c.now c.level c.name c.msgs l

  abbrev pub messages : Logger T → List (Call T M) → List (Message T)
  messages l [] = []
  messages l (c ∷ calls) = message_at l c ∷ messages l calls

  messages-All :
      (l : Logger T) (calls : List (Call T M))
      → All (λ m. ends_line m.msg ≡ true) (messages l calls)
  messages-All l [] = tt
  messages-All l (c ∷ calls) = (ends_line-closed _, messages-All l calls)

  log_call : Call T M → Logger T → Logger T
  log_call c l = log clock any_to_string c.now c.level c.name c.msgs l

  messages-log_call :
      (l : Logger T) (c : Call T M) (calls : List (Call T M))
      → messages (log_call c l) calls ≡ messages l calls
  unfolding log_call log
  messages-log_call l c [] = refl
  messages-log_call l c (d ∷ calls) = ap (λ ms. message_at l d ∷ ms) (messages-log_call l c calls)

  unfoldable pub log_all : List (Call T M) → Logger T → Logger T
  unfolding log_call
  log_all [] l = l
  log_all (c ∷ calls) l = log_all calls (log_call c l)

  buffer-log_call :
      (c : Call T M) (l : Logger T)
      → l.keep_next_line_opened ≡ false
      → (log_call c l).buffer ≡ l.buffer ++ message_at l c ∷ []
  unfolding log_call log
  buffer-log_call c l h = rw h refl

  buffer-log_all :
      (calls : List (Call T M)) (l : Logger T)
      → l.keep_next_line_opened ≡ false
      → (log_all calls l).buffer ≡ l.buffer ++ messages l calls
  unfolding log_all
  buffer-log_all [] l h = sym (append-nil l.buffer)
  buffer-log_all (c ∷ calls) l h =
      rw
        (
          buffer-log_all calls (log_call c l) (unfold log_call log in refl),
          buffer-log_call c l h,
          messages-log_call l c calls,
        )
        (append_assoc l.buffer (message_at l c ∷ []) (messages l calls))

  module _ {R : Type 0} (ops : LogFile R) (now : T) where
    -- The writer, message by message.
    unfoldable pub write_all : List (Message T) → FileWriter R → FileWriter R
    write_all [] fw = fw
    write_all (m ∷ ms) fw = write_all ms (file_write clock now ops m fw)

    -- The line of a message, and nothing for a message below the level of the writer.
    abbrev line : Message T → FileWriter R → Bytes
    line m fw =
        header clock now true fw.print_milliseconds m
        ++ ident m.msg (spaces (length (header clock now true fw.print_milliseconds m)))

    abbrev pub entry : FileWriter R → Message T → Bytes
    entry fw m = if less m.level fw.log_level then [] else line m fw

    abbrev pub entries : FileWriter R → List (Message T) → Bytes
    entries fw [] = []
    entries fw (m ∷ ms) = entry fw m ++ entries fw ms

    -- A writer to the file `r`, at the beginning of a line, whose file is never compacted.
    pub record IsAtLine (fw : FileWriter R) (r : R) : Type 0 where
      pub writes : fw.file ≡ some r
      pub closed_line : fw.last_line_opened ≡ false
      pub unbounded : less (pos 0) fw.max_file_size ≡ false

    written : Message T → FileWriter R → R → FileWriter R
    written m fw r = record fw {
      file = some (ops.write_string (line m fw) r);
      last_line_opened = false;
      curr_ident_prefix = spaces (length (header clock now true fw.print_milliseconds m));
    }

    file_write_skips :
        (m : Message T) (fw : FileWriter R)
        → less m.level fw.log_level ≡ true
        → file_write clock now ops m fw ≡ fw
    unfolding file_write
    file_write_skips m fw e = rw e refl

    file_write_appends :
        (m : Message T) (fw : FileWriter R) (r : R)
        → IsAtLine fw r
        → ends_line m.msg ≡ true
        → less m.level fw.log_level ≡ false
        → file_write clock now ops m fw ≡ written m fw r
    unfolding file_write written
    file_write_appends m fw r at h e = rw (e, at.writes, at.closed_line, h) (rw at.unbounded refl)

    entries-written :
        (m : Message T) (fw : FileWriter R) (r : R) (ms : List (Message T))
        → entries (written m fw r) ms ≡ entries fw ms
    unfolding written
    entries-written m fw r [] = refl
    entries-written m fw r (n ∷ ms) = ap (λ s. entry fw n ++ s) (entries-written m fw r ms)

    module _ (text : R → Bytes) (text_file : IsTextFile ops text) where
      -- The writer is at the beginning of a line of a file with the text `s`.
      pub record Holds (fw : FileWriter R) (s : Bytes) : Type 0 where
        pub log_file : R
        pub at_line : IsAtLine fw log_file
        pub content : text log_file ≡ s

      write_all_appends :
          (ms : List (Message T)) (fw : FileWriter R) (r : R)
          → IsAtLine fw r
          → All (λ m. ends_line m.msg ≡ true) ms
          → Holds (write_all ms fw) (text r ++ entries fw ms)
      unfolding write_all
      write_all_appends [] fw r at _ = record {
        log_file = r;
        at_line = at;
        content = sym (append-nil (text r));
      }
      write_all_appends (m ∷ ms) fw r at (h, hs) = elim (Bool-cases (less m.level fw.log_level)) [
        | inl e ↦ rw (file_write_skips m fw e, e) (write_all_appends ms fw r at hs)
        | inr e ↦
            let rest =
              write_all_appends ms (written m fw r) (ops.write_string (line m fw) r)
                (unfold written in
                  record { writes = refl; closed_line = refl; unbounded = at.unbounded })
                hs in
            rw (file_write_appends m fw r at h e, e)
              (record {
                log_file = rest.log_file;
                at_line = rest.at_line;
                content =
                    rest.content
                    ∙ rw (entries-written m fw r ms, text_file.text-write (line m fw))
                        (append_assoc (text r) (line m fw) (entries fw ms));
              })
      ]

      -- For a logger with an empty channel that keeps no line open, a file whose text is what was written to
      -- it, and a writer to it, at the beginning of a line, with no bound on the size: after any calls
      -- of Log, the writer that takes the messages of the channel appends to the file, for the calls of
      -- its level or above and in their order, the header and the message with its line break,
      -- idented by the header's length, and nothing else, and is at the beginning of a line.
      pub write_all-log_all :
          (calls : List (Call T M)) (l : Logger T) (fw : FileWriter R) (r : R)
          → l.buffer ≡ []
          → l.keep_next_line_opened ≡ false
          → IsAtLine fw r
          → Holds (write_all (log_all calls l).buffer fw) (text r ++ entries fw (messages l calls))
      write_all-log_all calls l fw r h keep at =
          rw (buffer-log_all calls l keep, h)
            (write_all_appends (messages l calls) fw r at (messages-All l calls))
