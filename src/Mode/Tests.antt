-- ===== src/Mode/Tests.antt =====
-- A connection through a bastion host, key scans, and inventories.
use terraform_provisioner_an.Base.{
  ℕ, ◌≡◌, ◌≤◌, refl, ◌==◌, true, false, Option, none, some, List, [], ◌∷◌, ◌++◌, arith, Text, text,
  split, if◌then◌else◌,
}
use terraform_provisioner_an.Base.Int.{pos, negsuc}
use terraform_provisioner_an.Base.Outcome.{ok, Ensures}
use terraform_provisioner_an.Types.Helpers.{member}
use terraform_provisioner_an.Mode.ConnectionInfo.{ConnectionInfo, Libraries, parse_connection_info}
use terraform_provisioner_an.Mode.ConnectionInfo.Settled.{
  IsSettled, parse_connection_info-IsSettled,
}
use terraform_provisioner_an.Mode.Retry.{
  arrived, allowed, timeout_ms, retry_loop, first_answer, retry_loop-answer, retry_loop-arrived,
}
use terraform_provisioner_an.Mode.Hosts.{inventory_text, ensure_localhost_in_hosts}
use terraform_provisioner_an.Mode.Hosts.Lines.{
  group_lines, split-inventory_text, ensure_localhost_in_hosts-keeps,
}

abbrev pub through_bastion : ConnectionInfo
through_bastion = record {
  user = [];
  password = [];
  private_key = 107 ∷ [];
  host = 104 ∷ [];
  host_key = [];
  port = pos 0;
  agent = false;
  timeout = [];
  script_path = [];
  timeout_val = pos 0;
  bastion_user = [];
  bastion_password = [];
  bastion_private_key = [];
  bastion_host = 98 ∷ [];
  bastion_host_key = [];
  bastion_port = pos 0;
  agent_identity = [];
}

-- Each text is a key, which is encoded as itself.
abbrev pub lenient : Libraries
lenient = record {
  decode = λ _. ok through_bastion;
  ip_format = λ t. t;
  parse_duration = λ _. none;
  decode_pem = λ t. some (record { proc_type = []; encoded = t });
  parse_private_key = λ _. none;
  quoted = λ t. t;
}

parse_connection_info-IsSettled_example :
    Ensures (IsSettled lenient) (parse_connection_info lenient [] (115 ∷ []))
parse_connection_info-IsSettled_example = parse_connection_info-IsSettled lenient [] (115 ∷ [])

-- The first two attempts fail.
abbrev third_time : ℕ → Option Text
third_time k = if k == 2 then none else some []

-- A product of more than 63 bits is negative.
test_timeout :
    (timeout_ms (pos 60) ≡ pos 60000)
    × (timeout_ms (pos 9223372036854776) ≡ negsuc 9223372036854775615)
    × (timeout_ms (negsuc 9223372036854775) ≡ pos 9223372036854775616)
unfolding timeout_ms
test_timeout = (refl, refl, refl)

retry_loop-answer_example :
    retry_loop 13 third_time (pos 60) 0 0 ≡ some (first_answer third_time (allowed (pos 60)) 0)
retry_loop-answer_example = retry_loop-answer third_time (pos 60) 13 (omega arith) (omega arith)

retry_loop-arrived_example :
    (j : ℕ) × (j ≤ 2)
    × (third_time j ≡ none)
    × (retry_loop 13 third_time (pos 60) 0 0 ≡ some (arrived j))
retry_loop-arrived_example =
    retry_loop-arrived third_time (pos 60) 2 13 (omega arith) (omega arith) refl (omega arith)

abbrev two_hosts : List Text
two_hosts = (97 ∷ []) ∷ (98 ∷ []) ∷ []

split-inventory_text_example :
    split (inventory_text two_hosts ((103 ∷ []) ∷ [])) 10
    ≡ two_hosts ++ ([] ∷ [] ∷ group_lines two_hosts ((103 ∷ []) ∷ []))
split-inventory_text_example =
    split-inventory_text two_hosts ((103 ∷ []) ∷ [])
      (((omega arith), tt), (((omega arith), tt), tt)) (((omega arith), tt), tt)

ensure_localhost_in_hosts-keeps_example :
    (member (text "localhost") (ensure_localhost_in_hosts two_hosts) ≡ true)
    × (ensure_localhost_in_hosts two_hosts
        ≡ (if member (text "localhost") two_hosts then two_hosts else text "localhost" ∷ two_hosts))
    × (ensure_localhost_in_hosts (ensure_localhost_in_hosts two_hosts)
        ≡ ensure_localhost_in_hosts two_hosts)
ensure_localhost_in_hosts-keeps_example = ensure_localhost_in_hosts-keeps two_hosts
