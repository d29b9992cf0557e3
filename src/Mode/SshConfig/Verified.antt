-- ===== src/Mode/SshConfig/Verified.antt =====
-- What the configuration of an ssh client in mode/ssh_configurable.go promises.
use mathlib.Core.Path.{subst}
use terraform_provisioner_an.Base.{
  join, text, append_assoc, inl, inr, Bool-cases, ◌≡◌, refl, sym, ap, Bool, true, false, not,
  Option, none, some, List, [], ◌∷◌, ◌++◌, Text, is_empty, if◌then◌else◌,
}
use terraform_provisioner_an.Base.Outcome.{
  Outcome, ok, err, panic, ok-injective, err-ne-ok, panic-ne-ok,
}
use terraform_provisioner_an.Mode.ConnectionInfo.{ConnectionInfo, PemBlock, Libraries}
use terraform_provisioner_an.Mode.ConnectionInfo.Settled.{IsUsableKey, no_key, usable, IsSettled}
use terraform_provisioner_an.Mode.SshConfig.{
  Provider, bastion_host, target_host, AuthMethod, public_keys, agent_signers, HostKeyCallback,
  receive_host_key, verify_host_key, ClientConfig, FileStep, created, removed, wrote, Surroundings,
  known_hosts_line, unless_error, ssh_agent, public_key_file, auth_methods, configured,
  with_known_hosts_file, with_temp_file, ssh_config,
}

-- The temporary file is removed if it was made, and nothing follows that.
pub data IsCleared : List FileStep → Type 0 where
  no_file : IsCleared []
  not_written : (name : Text) → IsCleared (created name ∷ removed name ∷ [])
  written :
      (name contents : Text) → IsCleared (created name ∷ wrote name contents ∷ removed name ∷ [])

-- What `pem.EncodeToMemory` writes can be parsed if what it was decoded from can.
abbrev pub IsReEncoding : Libraries → Type 0
IsReEncoding libraries =
    (key : Text) (block : PemBlock)
    → libraries.decode_pem key ≡ some block
    → libraries.parse_private_key key ≡ none
    → libraries.parse_private_key block.encoded ≡ none

-- A known hosts file that has one line, which says that keys are trusted for the host if the given
-- key signed them.
abbrev pub trusted : Text → Text → Text
trusted host key = join (text "@cert-authority" ∷ host ∷ key ∷ []) (text " ") ++ text "\n"

trusted-line :
    (host key : Text)
    → trusted host key ≡ text "@cert-authority " ++ (host ++ (text " " ++ (key ++ text "\n")))
unfolding text join
trusted-line host key =
    ap (λ t. text "@cert-authority " ++ t) (append_assoc host (text " " ++ key) (text "\n"))

-- The keys of a host are checked against the given key; without one, any is taken.
pub data ChecksKeys (host : Text) : Text → HostKeyCallback → Type 0 where
  verifies :
      (key : Text) → is_empty key ≡ false → ChecksKeys host key (verify_host_key (trusted host key))
  receives : (key : Text) → is_empty key ≡ true → ChecksKeys host key receive_host_key

-- The private key comes first, if there is one.
pub data OffersKey : Text → List (Option AuthMethod) → List (Option AuthMethod) → Type 0 where
  with_key :
      {rest : List (Option AuthMethod)}
      → (key : Text) → is_empty key ≡ false
      → OffersKey key (some (public_keys key) ∷ rest) rest
  without_key :
      {rest : List (Option AuthMethod)}
      → (key : Text) → is_empty key ≡ true
      → OffersKey key rest rest

-- The agent is asked if it is to be used; it gives no method if its socket cannot be reached.
pub data OffersAgent (socket_error : Option Text) : Bool → List (Option AuthMethod) → Type 0 where
  with_agent : socket_error ≡ none → OffersAgent socket_error true (some agent_signers ∷ [])
  unreachable : (e : Text) → socket_error ≡ some e → OffersAgent socket_error true (none ∷ [])
  without_agent : OffersAgent socket_error false []

module _ (libraries : Libraries) (around : Surroundings) where
  abbrev callback_of : Provider → HostKeyCallback
  callback_of p =
      if not (is_empty p.host_key) then verify_host_key (known_hosts_line p) else receive_host_key

  abbrev methods_of : Provider → List (Option AuthMethod)
  methods_of p =
      (if not (is_empty p.pem_file) then some (public_keys p.pem_file) ∷ [] else [])
      ++ (if p.agent then ssh_agent libraries around ∷ [] else [])

  -- The configuration, if there is one, checks the host key, and the file is cleared away.
  record IsSafe (p : Provider) (callback : HostKeyCallback)
      (r : Outcome ClientConfig × List FileStep) : Type 0 where
    cleared : IsCleared r.1
    checks : (c : ClientConfig) → r.0 ≡ ok c → c ≡ configured libraries around p callback

  IsSafe-with_known_hosts_file :
      (p : Provider) (name : Text) (write_error read_error : Option Text)
      → IsSafe p
          (verify_host_key (known_hosts_line p))
          (with_known_hosts_file libraries around p name write_error read_error)
  IsSafe-with_known_hosts_file p name (some e) read_error = record {
    cleared = not_written name;
    checks = λ c q. absurd (err-ne-ok q);
  }
  IsSafe-with_known_hosts_file p name none (some e) = record {
    cleared = written name _;
    checks = λ c q. absurd (err-ne-ok q);
  }
  IsSafe-with_known_hosts_file p name none none = record {
    cleared = written name _;
    checks = λ c q. sym (ok-injective q);
  }

  IsSafe-with_temp_file :
      (p : Provider) (o : Outcome Text)
      → IsSafe p (verify_host_key (known_hosts_line p)) (with_temp_file libraries around p o)
  IsSafe-with_temp_file p (ok name) = IsSafe-with_known_hosts_file p name _ _
  IsSafe-with_temp_file p (err e) = record {
    cleared = no_file;
    checks = λ c q. absurd (err-ne-ok q);
  }
  IsSafe-with_temp_file p panic = record {
    cleared = no_file;
    checks = λ c q. absurd (panic-ne-ok q);
  }

  IsSafe-if :
      (p : Provider) (given : Bool)
      → IsSafe p (if given then verify_host_key (known_hosts_line p) else receive_host_key) (
          if given
          then with_temp_file libraries around p around.temp_file
          else (ok (configured libraries around p receive_host_key), []))
  IsSafe-if p true = IsSafe-with_temp_file p around.temp_file
  IsSafe-if p false = record { cleared = no_file; checks = λ c q. sym (ok-injective q) }

  key_methods-IsUsableKey :
      (key : Text)
      → IsReEncoding libraries
      → IsUsableKey libraries key
      → (if not (is_empty key)
          then unless_error libraries around (libraries.parse_private_key key) (public_keys key)
            ∷ []
          else [])
        ≡ (if not (is_empty key) then some (public_keys key) ∷ [] else [])
  key_methods-IsUsableKey key h no_key = refl
  key_methods-IsUsableKey key h (usable given block decoded plain parsed) =
      rw (h given block decoded parsed) refl

  auth_methods-IsUsableKey :
      (p : Provider)
      → IsReEncoding libraries
      → IsUsableKey libraries p.pem_file
      → auth_methods libraries around p ≡ methods_of p
  unfolding auth_methods public_key_file
  auth_methods-IsUsableKey p h k =
      ap (λ ms. ms ++ (if p.agent then ssh_agent libraries around ∷ [] else []))
        (key_methods-IsUsableKey p.pem_file h k)

  -- An end of the connection, with its host, its host key, its private key and its user: the target,
  -- or the bastion host if it is in use.
  pub data IsEnd (v : ConnectionInfo) : Provider → Text → Text → Text → Text → Type 0 where
    is_target : IsEnd v (target_host v) v.host v.host_key v.private_key v.user
    is_bastion :
        is_empty v.bastion_host ≡ false
        → IsEnd v
            (bastion_host v)
            v.bastion_host
            v.bastion_host_key
            v.bastion_private_key
            v.bastion_user

  IsSafe-ssh_config : (p : Provider) → IsSafe p (callback_of p) (ssh_config libraries around p)
  unfolding ssh_config
  IsSafe-ssh_config p = IsSafe-if p (not (is_empty p.host_key))

  -- However the configuration ends, the temporary known hosts file is removed if it was made.
  pub ssh_config-IsCleared : (p : Provider) → IsCleared (ssh_config libraries around p).1
  ssh_config-IsCleared p = (IsSafe-ssh_config p).cleared

  callback_of-ChecksKeys : (p : Provider) → ChecksKeys p.host p.host_key (callback_of p)
  callback_of-ChecksKeys p = elim (Bool-cases (is_empty p.host_key)) [
    | inl not_given ↦ rw not_given (receives p.host_key not_given)
    | inr given ↦ rw given (
        subst (λ line. ChecksKeys p.host p.host_key (verify_host_key line))
          (trusted-line p.host p.host_key) (verifies p.host_key given))
  ]

  abbrev agent_of : Provider → List (Option AuthMethod)
  agent_of p = if p.agent then ssh_agent libraries around ∷ [] else []

  methods_of-OffersKey : (p : Provider) → OffersKey p.pem_file (methods_of p) (agent_of p)
  methods_of-OffersKey p = elim (Bool-cases (is_empty p.pem_file)) [
    | inl not_given ↦ rw not_given (without_key p.pem_file not_given)
    | inr given ↦ rw given (with_key p.pem_file given)
  ]

  if-OffersAgent :
      (asked : Bool) (o : Option Text)
      → OffersAgent o asked
          (if asked then unless_error libraries around o agent_signers ∷ [] else [])
  if-OffersAgent false o = without_agent
  if-OffersAgent true none = with_agent refl
  if-OffersAgent true (some e) = unreachable e refl

  -- What a client's configuration has of a host, its key, the private key, the user and the agent.
  pub record IsConfigured (host host_key pem_file user : Text) (agent : Bool) (c : ClientConfig)
      : Type 0 where
    pub checks : ChecksKeys host host_key c.host_key_callback
    pub agent_methods : List (Option AuthMethod)
    pub offers_key : OffersKey pem_file c.auth agent_methods
    pub offers_agent : OffersAgent around.dial_agent agent agent_methods
    pub logs_in : c.user ≡ user

  configured-IsConfigured :
      (p : Provider)
      → IsReEncoding libraries
      → IsUsableKey libraries p.pem_file
      → IsConfigured p.host p.host_key p.pem_file p.user p.agent
          (configured libraries around p (callback_of p))
  unfolding ssh_agent
  configured-IsConfigured p h k = record {
    checks = callback_of-ChecksKeys p;
    agent_methods = agent_of p;
    offers_key =
        subst (λ ms. OffersKey p.pem_file ms (agent_of p)) (sym (auth_methods-IsUsableKey p h k))
          (methods_of-OffersKey p);
    offers_agent = if-OffersAgent p.agent around.dial_agent;
    logs_in = refl;
  }

  -- The configuration for either end of a settled connection checks the keys of that end's host
  -- against a line that trusts the host key that is given for it, and takes any key only if none is
  -- given; it offers the private key of that end, if there is one, before the agent, if it is to be
  -- used and can be reached; and it logs in as the user of that end; provided that a key that is
  -- encoded again can be parsed as before.
  pub ssh_config-verifies :
      (v : ConnectionInfo) (p : Provider) (host host_key pem_file user : Text) (c : ClientConfig)
      → IsReEncoding libraries
      → IsSettled libraries v
      → IsEnd v p host host_key pem_file user
      → (ssh_config libraries around p).0 ≡ ok c
      → IsConfigured host host_key pem_file user v.agent c
  unfolding target_host bastion_host
  ssh_config-verifies v p host host_key pem_file user c h s is_target q =
      subst (IsConfigured v.host v.host_key v.private_key v.user v.agent)
        (sym ((IsSafe-ssh_config (target_host v)).checks c q))
        (configured-IsConfigured (target_host v) h s.key)
  ssh_config-verifies v p host host_key pem_file user c h s (is_bastion used) q =
      subst
        (IsConfigured v.bastion_host v.bastion_host_key v.bastion_private_key v.bastion_user
          v.agent)
        (sym ((IsSafe-ssh_config (bastion_host v)).checks c q))
        (configured-IsConfigured (bastion_host v) h (s.bastion_key used))
