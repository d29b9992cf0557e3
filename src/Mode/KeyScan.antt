-- ===== src/Mode/KeyScan.antt =====
-- mode/ssh_bastion_keyscan.go: the scan for the target's host key on the bastion host.
pub mod Sessions
mod Tests
use terraform_provisioner_an.Base.{
  ℕ, zero, suc, Option, none, some, List, [], ◌∷◌, ◌++◌, Text, text,
}
use terraform_provisioner_an.Base.Int.{ℤ, show}
use terraform_provisioner_an.Base.Outcome.{Outcome, ok, err, panic}
use terraform_provisioner_an.Go.Path.{path_join}
use terraform_provisioner_an.Mode.Retry.{Answer, arrived, gave_up, retries, retry_loop}

-- What is done with the ssh client, by the number of the session.
pub data Step : Type 0 where
  opened : ℕ → Step
  ran : ℕ → Text → Step
  closed : ℕ → Step

-- The ssh client: for each session, by its number, whether it can be had, and the errors of a pseudo
-- terminal, of the two pipes and of a command in it; and what a command writes.
pub record Client : Type 0 where
  pub new_session : ℕ → Option Text
  pub request_pty : ℕ → Option Text
  pub stdout_pipe : ℕ → Option Text
  pub stderr_pipe : ℕ → Option Text
  pub run : ℕ → Text → Option Text
  pub output : ℕ → Text → Text

pub record KeyScan : Type 0 where
  pub host : Text
  pub port : ℤ
  pub ssh_keyscan_timeout : ℤ

-- An error, or none, and what was done.
pub record Executed : Type 0 where
  pub error : Option Text
  pub trace : List Step

pub record Scanned : Type 0 where
  pub result : Outcome Text
  pub trace : List Step

unfoldable pub make_error : Text → Text
make_error message = text "Bastion ssh-keyscan: " ++ message

-- `quotedSSHKnownFileDir`: "~/.ssh" with its first "~/" replaced.
unfoldable pub quoted_ssh_known_file_dir : Text
quoted_ssh_known_file_dir = text "$HOME/.ssh"

module _ (client : Client) where
  abbrev in_session : ℕ → Option Text → Executed
  in_session k error = record { error = error; trace = opened k ∷ closed k ∷ [] }

  -- By the errors of the pipes, from `redirectOutputs`.
  abbrev redirected : Text → ℕ → Option Text → Option Text → Executed
  redirected command k (some e) stderr =
      in_session k (some (text "Unable to setup stdout for session: " ++ e))
  redirected command k none (some e) =
      in_session k (some (text "Unable to setup stderr for session: " ++ e))
  redirected command k none none = record {
    error = client.run k command;
    trace = opened k ∷ ran k command ∷ closed k ∷ [];
  }

  -- By the errors of the session and of the pseudo terminal.
  abbrev executed : Text → ℕ → Option Text → Option Text → Executed
  executed command k (some e) pty = record {
    error = some (make_error (text "failed to create session: " ++ (e ++ text ".")));
    trace = [];
  }
  executed command k none (some e) =
      in_session k
        (some (make_error (text "request for pseudo terminal failed: " ++ (e ++ text "."))))
  executed command k none none = redirected command k (client.stdout_pipe k) (client.stderr_pipe k)

  unfoldable pub execute : Text → ℕ → Executed
  execute command k = executed command k (client.new_session k) (client.request_pty k)

  -- The last session, which reads the file, by its errors.
  abbrev read_by : Text → ℕ → Option Text → Option Text → Scanned
  read_by command k (some e) run_error = record { result = err e; trace = [] }
  read_by command k none (some e) = record {
    result = err e;
    trace = opened k ∷ ran k command ∷ closed k ∷ [];
  }
  read_by command k none none = record {
    result = ok (client.output k command);
    trace = opened k ∷ ran k command ∷ closed k ∷ [];
  }

  unfoldable pub read_file : Text → ℕ → Scanned
  read_file target_path k =
      let command = text "echo -e \"$(cat \"" ++ (target_path ++ text "\")\"") in
      read_by command k (client.new_session k) (client.run k command)

unfoldable pub scan_command : KeyScan → Text → Text
scan_command b target_path =
    text "ssh_keyscan_result=$(ssh-keyscan -T "
    ++ (show b.ssh_keyscan_timeout
        ++ (text " -p "
            ++ (show b.port
                ++ (text " "
                    ++ (b.host
                        ++ (text " 2>/dev/null | grep "
                            ++ (b.host
                                ++ (text ") && echo -e \"${ssh_keyscan_result}\" > \""
                                    ++ (target_path ++ text "\"")))))))))

module _ (client : Client) (b : KeyScan) (target_path : Text) where
  -- The session of attempt `j`; the first session is that of mkdir.
  abbrev pub attempt : ℕ → Executed
  attempt j = execute client (scan_command b target_path) (suc j)

  -- What the first attempts do.
  unfoldable pub attempts_trace : ℕ → List Step
  attempts_trace zero = []
  attempts_trace (suc n) = attempts_trace n ++ (attempt n).trace

  abbrev behind : List Step → Scanned → Scanned
  behind trace s = record { result = s.result; trace = trace ++ s.trace }

  -- What follows the loop; it always has an answer.
  abbrev pub answered : Option Answer → Scanned
  answered none = record { result = panic; trace = [] }
  answered (some (gave_up j e)) = record {
    result = err (
        make_error (
          text "failed receive target ssh key for "
          ++ (b.host
              ++ (text ":"
                  ++ (show b.port
                      ++ (text " within time specified period of "
                          ++ (show b.ssh_keyscan_timeout ++ text " seconds.")))))));
    trace = attempts_trace (suc j);
  }
  answered (some (arrived j)) =
      behind (attempts_trace (suc j)) (read_file client target_path (suc (suc j)))

  -- The loop, with one round more than there are retries.
  abbrev pub the_answer : Option Answer
  the_answer =
      retry_loop (suc (retries b.ssh_keyscan_timeout)) (λ j. (attempt j).error)
        b.ssh_keyscan_timeout 0 0

  abbrev made_directory : Option Text → List Step → Scanned
  made_directory (some e) trace = record { result = err e; trace = trace }
  made_directory none trace = behind trace (answered the_answer)

-- For the UUID that is drawn.
unfoldable pub scan : Client → KeyScan → Text → Scanned
scan client b u1 =
    let made = execute client (text "mkdir -p \"" ++ (quoted_ssh_known_file_dir ++ text "\"")) 0 in
    made_directory client b (path_join quoted_ssh_known_file_dir u1) made.error made.trace
