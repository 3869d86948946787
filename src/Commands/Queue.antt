-- ===== src/Commands/Queue.antt =====
-- What a reader finds in the queue (dashboard/main.go: queueCommand, handleControl).
use ninj_os_proxie_edge_fabr.Prelude.{
  append_assoc, append_nil, ℕ, ◌≡◌, ◌≢◌, refl, ap, sym, ◌∙◌, ◌⊎◌, Bool, ◌&&◌, List, [], ◌∷◌, ◌++◌,
  map, arith, if◌then◌else◌, Text, All-append, All-weaken, Bool-cases, inl, inr,
}
use ninj_os_proxie_edge_fabr.Prelude.Int.{ℤ, pos, negsuc}
use ninj_os_proxie_edge_fabr.GoText.{split, replace_byte}
use ninj_os_proxie_edge_fabr.GoText.Lines.{
  Free, split-Free, split-append, All-trim_space, Free-replace_byte, Free-replace_byte_other,
}
use ninj_os_proxie_edge_fabr.GoText.Decimal.{format_int, format_nat, format_nat-All}
use ninj_os_proxie_edge_fabr.Commands.{
  Command, sanitize_command, command_body, queue_command, is_allowed, handle_control, handle_all,
}

sanitize-no_bar : (value : Text) → Free b'|' (sanitize_command value)
unfolding sanitize_command
sanitize-no_bar value =
    All-trim_space (λ c. c ≢ b'|')
      (replace_byte b'\r' b' ' (replace_byte b'\n' b' ' (replace_byte b'|' b' ' value)))
      (Free-replace_byte_other b'|' b'\r' b' ' (omega arith)
        (replace_byte b'\n' b' ' (replace_byte b'|' b' ' value))
        (Free-replace_byte_other b'|' b'\n' b' ' (omega arith) (replace_byte b'|' b' ' value)
          (Free-replace_byte b'|' b' ' (omega arith) value)))

sanitize-no_newline : (value : Text) → Free b'\n' (sanitize_command value)
unfolding sanitize_command
sanitize-no_newline value =
    All-trim_space (λ c. c ≢ b'\n')
      (replace_byte b'\r' b' ' (replace_byte b'\n' b' ' (replace_byte b'|' b' ' value)))
      (Free-replace_byte_other b'\n' b'\r' b' ' (omega arith)
        (replace_byte b'\n' b' ' (replace_byte b'|' b' ' value))
        (Free-replace_byte b'\n' b' ' (omega arith) (replace_byte b'|' b' ' value)))

digits-Free : (b n : ℕ) → (b ≡ b'|') ⊎ (b ≡ b'\n') → Free b (format_nat n)
digits-Free b n h =
    All-weaken _ (λ c. c ≢ b) (λ c d e. ground (arith, d, e, h)) (format_nat n) (format_nat-All n)

format_int-Free : (b : ℕ) (z : ℤ) → (b ≡ b'|') ⊎ (b ≡ b'\n') → Free b (format_int z)
unfolding format_int
format_int-Free b (pos n) h = digits-Free b n h
format_int-Free b (negsuc n) h = (λ e. ground (arith, e, h), digits-Free b (ℕ.suc n) h)

-- The fields of a command as a reader should see them.
abbrev pub fields : Command → List Text
fields c =
    format_int c.time
    ∷ sanitize_command c.command
    ∷ sanitize_command c.argument
    ∷ sanitize_command c.argument2
    ∷ []

split-command_body : (c : Command) → split b'|' (command_body c) ≡ fields c
unfolding command_body
split-command_body c =
    rw
      (
        split-append b'|' (format_int c.time)
            (sanitize_command c.command
              ++ (b'|' ∷ sanitize_command c.argument ++ (b'|' ∷ sanitize_command c.argument2)))
            (format_int-Free b'|' c.time (inl refl)),
        split-append b'|' (sanitize_command c.command)
            (sanitize_command c.argument ++ (b'|' ∷ sanitize_command c.argument2))
            (sanitize-no_bar c.command),
        split-append b'|' (sanitize_command c.argument) (sanitize_command c.argument2)
            (sanitize-no_bar c.argument),
        split-Free b'|' (sanitize_command c.argument2) (sanitize-no_bar c.argument2),
      )
      refl

command_body-no_newline : (c : Command) → Free b'\n' (command_body c)
unfolding command_body
command_body-no_newline c =
    All-append (λ b. b ≢ b'\n') (format_int c.time) _ (format_int-Free b'\n' c.time (inr refl))
      (
        omega arith,
        All-append (λ b. b ≢ b'\n') (sanitize_command c.command) _ (sanitize-no_newline c.command)
            (
              omega arith,
              All-append (λ b. b ≢ b'\n') (sanitize_command c.argument) _
                  (sanitize-no_newline c.argument) (omega arith, sanitize-no_newline c.argument2),
            ),
      )

log : List Command → Text
log [] = []
log (c ∷ cs) = command_body c ++ (b'\n' ∷ log cs)

-- The commands that requests leave in the file.
unfoldable pub accepted : List (Bool × Command) → List Command
accepted [] = []
accepted ((ok, c) ∷ requests) =
    let rest = accepted requests in if is_allowed c.command && ok then c ∷ rest else rest

handle_control-file :
    (ok : Bool) (c : Command) (file : Text)
    → (handle_control ok c file).1
      ≡ (if is_allowed c.command && ok then file ++ (command_body c ++ (b'\n' ∷ [])) else file)
unfolding handle_control queue_command
handle_control-file ok c file = ground arith

handle_all-log :
    (requests : List (Bool × Command)) (file : Text)
    → handle_all requests file ≡ file ++ log (accepted requests)
unfolding handle_all accepted log
handle_all-log [] file = sym (append_nil file)
handle_all-log ((ok, c) ∷ requests) file =
    rw (handle_control-file ok c file) (elim (Bool-cases (is_allowed c.command && ok)) [
      | inl y ↦ rw y (
          handle_all-log requests (file ++ (command_body c ++ (b'\n' ∷ [])))
          ∙ append_assoc file (command_body c ++ (b'\n' ∷ [])) (log (accepted requests))
          ∙ ap (λ l. file ++ l)
              (append_assoc (command_body c) (b'\n' ∷ []) (log (accepted requests))))
      | inr n ↦ rw n (handle_all-log requests file)
    ])

records-log :
    (cs : List Command)
    → map (split b'|') (split b'\n' (log cs)) ≡ map fields cs ++ (([] ∷ []) ∷ [])
unfolding log
records-log [] = unfold split in refl
records-log (c ∷ cs) =
    rw
      (
        split-append b'\n' (command_body c) (log cs) (command_body-no_newline c),
        split-command_body c,
        records-log cs,
      )
      refl

-- A reader who splits the file at its newlines and each line at its bars finds the requests that were
-- allowed and written, in their order, each as its four fields with the texts made safe, and after them
-- the empty end of the file: no text of a request adds a field or a line.
pub handle_all-fields :
    (requests : List (Bool × Command))
    → map (split b'|') (split b'\n' (handle_all requests []))
      ≡ map fields (accepted requests) ++ (([] ∷ []) ∷ [])
handle_all-fields requests = rw (handle_all-log requests []) (records-log (accepted requests))
