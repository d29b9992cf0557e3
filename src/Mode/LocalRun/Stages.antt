-- ===== src/Mode/LocalRun/Stages.antt =====
-- The stages of a run of mode/mode_local.go that succeeds, and the files that its commands are given.
use terraform_provisioner_an.Base.{
  ◌≡◌, refl, ap, ◌∙◌, ◌⊎◌, inl, inr, ℕ, suc, Bool, true, false, not, List, [], ◌∷◌, ◌++◌, Text,
  is_empty, if◌then◌else◌,
}
use terraform_provisioner_an.Base.Outcome.{Outcome, ok, err, panic, err-ne-ok, panic-ne-ok}
use terraform_provisioner_an.Types.AnsibleSshSettings.{AnsibleSshSettings}
use terraform_provisioner_an.Types.Play.{Play}
use terraform_provisioner_an.Command.Arguments.{LocalModeAnsibleArgs, Runtime}
use terraform_provisioner_an.Mode.ConnectionInfo.{ConnectionInfo}
use terraform_provisioner_an.Mode.HostKeys.{Network, checked_settings, known_hosts}
use terraform_provisioner_an.Mode.LocalPlays.{
  Effect, made_file, unwritten, wrote, Ended, Machine, NewFile, given, created, failed, written,
  in_file, run_plays,
}
use terraform_provisioner_an.Mode.LocalRun.{
  known_hosts_file_contents, with_file, write_known_hosts, write_pem, with_pem, with_known_hosts,
  with_settings, local_run,
}

-- A new file with the text, or a failure.
abbrev HasText : Text → NewFile → Type 0
HasText contents (given name) = ⊥
HasText contents (created name c) = c ≡ contents
HasText contents (unwritten name o) = o ≡ ok tt → ⊥
HasText contents (failed o) = o ≡ ok tt → ⊥

-- The rest of a run that succeeds, behind some effects.
abbrev GoesOn : (Text → ℕ → Ended) → (Text → List Effect → Type 0) → Ended → Type 0
GoesOn rest P e =
    (name : Text) × (k : ℕ) × (before : List Effect) × P name before
    × ((rest name k).result ≡ ok tt)
    × (e.trace ≡ before ++ (rest name k).trace)

-- The file is written, and no more.
abbrev Writes : Text → Text → List Effect → Type 0
Writes contents name before = before ≡ made_file name ∷ wrote name contents ∷ []

behind :
    {e f : Effect} {es before rest : List Effect}
    → es ≡ before ++ rest
    → before ≡ e ∷ f ∷ []
    → es ≡ e ∷ f ∷ rest
behind {rest} p q = p ∙ ap (λ es. es ++ rest) q

with_file-GoesOn :
    (file : NewFile) (k : ℕ) (rest : Text → ℕ → Ended) (contents : Text)
    → HasText contents file
    → (with_file file k rest).result ≡ ok tt
    → GoesOn rest (Writes contents) (with_file file k rest)
unfolding with_file
with_file-GoesOn (given name) k rest contents h e = absurd h
with_file-GoesOn (created name c) k rest contents h e = (
  name,
  suc k,
  made_file name ∷ wrote name c ∷ [],
  ap (λ x. made_file name ∷ wrote name x ∷ []) h,
  e,
  refl,
)
with_file-GoesOn (unwritten name o) k rest contents h e = absurd (h e)
with_file-GoesOn (failed o) k rest contents h e = absurd (h e)

module _ (machine : Machine) where
  HasText-written :
      (name contents : Text) (o : Outcome (Unit {0}))
      → HasText contents (written machine name contents o)
  HasText-written name contents (ok _) = refl
  HasText-written name contents (err e) = err-ne-ok
  HasText-written name contents panic = panic-ne-ok

  HasText-in_file :
      (contents : Text) (o : Outcome Text) → HasText contents (in_file machine contents o)
  HasText-in_file contents (ok name) =
      HasText-written name contents (machine.write_file name contents)
  HasText-in_file contents (err e) = err-ne-ok
  HasText-in_file contents panic = panic-ne-ok

  -- The file of a private key: it is written if the key is given and the target has one, and
  -- otherwise there is no name for it.
  abbrev pub HasPem : ConnectionInfo → Text → Text → List Effect → Type 0
  HasPem v key name before =
      ((is_empty key ≡ false) × (is_empty v.private_key ≡ false) × Writes key name before)
      ⊎ (((is_empty key ≡ true) ⊎ (is_empty v.private_key ≡ true)) × (name ≡ []) × (before ≡ []))

  -- `with_pem`, by what is empty: the key that is written, and the target's.
  abbrev pem_by : Text → ℕ → (Text → ℕ → Ended) → Bool → Bool → Ended
  pem_by key k rest no_key no_target_key =
      if not no_key
      then with_file
          (if not no_target_key then in_file machine key (machine.temp_file k) else given []) k rest
      else rest [] k

  GoesOn-pem_by :
      (v : ConnectionInfo) (key : Text) (k : ℕ) (rest : Text → ℕ → Ended)
      (no_key no_target_key : Bool)
      → is_empty key ≡ no_key
      → is_empty v.private_key ≡ no_target_key
      → (pem_by key k rest no_key no_target_key).result ≡ ok tt
      → GoesOn rest (HasPem v key) (pem_by key k rest no_key no_target_key)
  unfolding with_file
  GoesOn-pem_by v key k rest true none q r h = ([], k, [], inr (inl q, refl, refl), h, refl)
  GoesOn-pem_by v key k rest false true q r h = ([], k, [], inr (inr r, refl, refl), h, refl)
  GoesOn-pem_by v key k rest false false q r h =
      let (name, j, before, p, ended_ok, trace) =
        with_file-GoesOn (in_file machine key (machine.temp_file k)) k rest key
          (HasText-in_file key (machine.temp_file k)) h in
      (name, j, before, inl (q, r, p), ended_ok, trace)

  GoesOn-with_pem :
      (v : ConnectionInfo) (key : Text) (k : ℕ) (rest : Text → ℕ → Ended)
      → (with_pem machine v key k rest).result ≡ ok tt
      → GoesOn rest (HasPem v key) (with_pem machine v key k rest)
  unfolding with_pem write_pem
  GoesOn-with_pem v key k rest h =
      GoesOn-pem_by v key k rest (is_empty key) (is_empty v.private_key) refl refl h

-- The arguments that a command is to be given: the end of the connection that each file is for.
abbrev pub args_with : ConnectionInfo → Text → Text → Text → Text → LocalModeAnsibleArgs
args_with v target_pem target_file bastion_pem bastion_file = record {
  username = v.user;
  port = v.port;
  pem_file = target_pem;
  known_hosts_file = target_file;
  bastion_host = v.bastion_host;
  bastion_port = v.bastion_port;
  bastion_username = v.bastion_user;
  bastion_pem_file = bastion_pem;
  bastion_known_hosts_file = bastion_file;
}

module _ (rt : Runtime) (machine : Machine) (network : Network) (v : ConnectionInfo)
    (plays : List Play) where
  -- The plays are run, with the files that were written before: key files, as far as there are keys,
  -- and the known hosts of the bastion host and of the target.
  pub record HasStages (given_settings : AnsibleSshSettings) (e : Ended) : Type 0 where
    pub settings : AnsibleSshSettings
    pub checked : checked_settings v plays given_settings ≡ ok settings
    pub target : List Text
    pub bastion : List Text
    pub hosts : known_hosts network v settings ≡ ok (target, bastion)
    pub bastion_pem_file : Text
    pub target_pem_file : Text
    pub bastion_file : Text
    pub target_file : Text
    pub bastion_key : List Effect
    pub target_key : List Effect
    pub has_bastion_key : HasPem machine v v.bastion_private_key bastion_pem_file bastion_key
    pub has_target_key : HasPem machine v v.private_key target_pem_file target_key
    pub made : ℕ
    pub trace :
        e.trace
        ≡ bastion_key
          ++ (target_key
              ++ (made_file bastion_file
                  ∷ wrote bastion_file (known_hosts_file_contents bastion)
                  ∷ made_file target_file
                  ∷ wrote target_file (known_hosts_file_contents target)
                  ∷ (run_plays rt machine v.host
                      (args_with v target_pem_file target_file bastion_pem_file bastion_file)
                      settings
                      made
                      plays).trace))

  abbrev KnownHostsStage :
      AnsibleSshSettings → Text → Text → List Text → List Text → List Effect → Type 0
  KnownHostsStage settings bastion_pem target_pem target bastion es =
      (bastion_file : Text) × (target_file : Text) × (made : ℕ) × (es
        ≡ made_file bastion_file
          ∷ wrote bastion_file (known_hosts_file_contents bastion)
          ∷ made_file target_file
          ∷ wrote target_file (known_hosts_file_contents target)
          ∷ (run_plays rt machine v.host
              (args_with v target_pem target_file bastion_pem bastion_file) settings made
              plays).trace)

  known_hosts-stage :
      (settings : AnsibleSshSettings) (bastion_pem target_pem : Text)
      (o : Outcome (List Text × List Text)) (k : ℕ)
      → (with_known_hosts rt machine network v plays settings bastion_pem target_pem o k).result
        ≡ ok tt
      → (target : List Text) × (bastion : List Text) × (o ≡ ok (target, bastion))
        × KnownHostsStage settings bastion_pem target_pem target bastion
            (with_known_hosts rt machine network v plays settings bastion_pem target_pem o k).trace
  unfolding write_known_hosts
  known_hosts-stage settings bastion_pem target_pem (ok (target, bastion)) k h =
      let (bastion_file, j, before, p, ended_ok, t) =
        with_file-GoesOn _ k _ _ (HasText-in_file machine _ (machine.temp_file k)) h in
      let (target_file, i, before', p', ended_ok', t') =
        with_file-GoesOn _ j _ _ (HasText-in_file machine _ (machine.temp_file j)) ended_ok in
      (
        target,
        bastion,
        refl,
        (
          bastion_file,
          target_file,
          i,
          behind t p
              ∙ ap
                  (λ es.
                    made_file bastion_file
                    ∷ wrote bastion_file (known_hosts_file_contents bastion)
                    ∷ es)
                  (behind t' p'),
        ),
      )
  known_hosts-stage settings bastion_pem target_pem (err x) k h = absurd (err-ne-ok h)
  known_hosts-stage settings bastion_pem target_pem panic k h = absurd (panic-ne-ok h)

  with_settings-HasStages :
      (given_settings : AnsibleSshSettings) (o : Outcome AnsibleSshSettings)
      → checked_settings v plays given_settings ≡ o
      → (with_settings rt machine network v plays o).result ≡ ok tt
      → HasStages given_settings (with_settings rt machine network v plays o)
  with_settings-HasStages given_settings (ok settings) c h =
      let (bastion_pem, j, bastion_key, b, h1, t1) =
        GoesOn-with_pem machine v v.bastion_private_key 0 _ h in
      let (target_pem, k, target_key, d, h2, t2) = GoesOn-with_pem machine v v.private_key j _ h1 in
      let (target, bastion, q, (bastion_file, target_file, made, t3)) =
        known_hosts-stage settings bastion_pem target_pem (known_hosts network v settings) k h2 in
      record {
        settings = settings;
        checked = c;
        target = target;
        bastion = bastion;
        hosts = q;
        bastion_pem_file = bastion_pem;
        target_pem_file = target_pem;
        bastion_file = bastion_file;
        target_file = target_file;
        bastion_key = bastion_key;
        target_key = target_key;
        has_bastion_key = b;
        has_target_key = d;
        made = made;
        trace = t1 ∙ ap (λ es. bastion_key ++ es) (t2 ∙ ap (λ es. target_key ++ es) t3);
      }
  with_settings-HasStages given_settings (err x) c h = absurd (err-ne-ok h)
  with_settings-HasStages given_settings panic c h = absurd (panic-ne-ok h)

  -- When the run of local mode ends without an error, it has written, in this order, the bastion
  -- host's private key if there is one and the target has one too, the target's private key if there
  -- is one, and the known hosts of the bastion host and of the target, and then run the plays by
  -- commands that are given the names of just these files, with no name where no key was written.
  pub local_run-HasStages :
      (settings : AnsibleSshSettings)
      → (local_run rt machine network v plays settings).result ≡ ok tt
      → HasStages settings (local_run rt machine network v plays settings)
  unfolding local_run
  local_run-HasStages settings =
      with_settings-HasStages settings (checked_settings v plays settings) refl
