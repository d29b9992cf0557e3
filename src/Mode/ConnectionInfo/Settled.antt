-- ===== src/Mode/ConnectionInfo/Settled.antt =====
-- What holds of the connection that mode/local_connection_extractor.go hands on.
use terraform_provisioner_an.Base.{
  ◌≡◌, inl, inr, refl, Bool, false, not, Bool-cases, Option, none, some, List, [], ◌∷◌, arith, Text,
  text, text_eq, is_empty,
}
use terraform_provisioner_an.Base.Int.{is_zero}
use terraform_provisioner_an.Base.Outcome.{
  Ensures, Ensures-bind, Ensures-ok, Ensures-err, Ensures-if, Ensures-any,
}
use terraform_provisioner_an.Mode.ConnectionInfo.{
  ConnectionInfo, PemBlock, Libraries, validate_private_key, decoded_key, parsed_key, with_defaults,
  with_valid_key, bastion_key, with_bastion_defaults, parse_connection_info,
}

unused_not_used : {b : Bool} → b ≡ false → not b ≡ false → ⊥
unused_not_used h k = cc

module _ (libraries : Libraries) where
  -- No key, or the encoding of a block that is not encrypted, of a text that is a private key.
  pub data IsUsableKey : Text → Type 0 where
    no_key : IsUsableKey []
    usable :
        (key : Text) (block : PemBlock)
        → libraries.decode_pem key ≡ some block
        → text_eq block.proc_type (text "4,ENCRYPTED") ≡ false
        → libraries.parse_private_key key ≡ none
        → IsUsableKey block.encoded

  -- A connection can be made with it: what must be there is there.
  pub record IsSettled (v : ConnectionInfo) : Type 0 where
    pub user : is_empty v.user ≡ false
    pub port : is_zero v.port ≡ false
    pub script_path : is_empty v.script_path ≡ false
    pub key : IsUsableKey v.private_key
    pub bastion_user : is_empty v.bastion_host ≡ false → is_empty v.bastion_user ≡ false
    pub bastion_port : is_empty v.bastion_host ≡ false → is_zero v.bastion_port ≡ false
    pub bastion_key : is_empty v.bastion_host ≡ false → IsUsableKey v.bastion_private_key

  usable_of_empty : (t : Text) → not (is_empty t) ≡ false → IsUsableKey t
  usable_of_empty [] h = no_key
  usable_of_empty (c ∷ t) h = cc

  parsed-IsUsableKey :
      (key : Text) (block : PemBlock) (o : Option Text)
      → libraries.decode_pem key ≡ some block
      → text_eq block.proc_type (text "4,ENCRYPTED") ≡ false
      → libraries.parse_private_key key ≡ o
      → Ensures IsUsableKey (parsed_key libraries key block o)
  unfolding parsed_key
  parsed-IsUsableKey key block none found plain parsed =
      Ensures-ok block.encoded (usable key block found plain parsed)
  parsed-IsUsableKey key block (some e) found plain parsed = Ensures-err _

  decoded-IsUsableKey :
      (key : Text) (o : Option PemBlock)
      → libraries.decode_pem key ≡ o
      → Ensures IsUsableKey (decoded_key libraries key o)
  unfolding decoded_key
  decoded-IsUsableKey key none found = Ensures-err _
  decoded-IsUsableKey key (some block) found =
      elim (Bool-cases (text_eq block.proc_type (text "4,ENCRYPTED"))) [
        | inl encrypted ↦ rw encrypted (Ensures-err _)
        | inr plain ↦ rw plain (parsed-IsUsableKey key block _ found plain refl)
      ]

  -- A private key that passes the validation is usable.
  pub validate_private_key-IsUsableKey :
      (key : Text) → Ensures IsUsableKey (validate_private_key libraries key)
  unfolding validate_private_key
  validate_private_key-IsUsableKey key = decoded-IsUsableKey key _ refl

  -- What holds after the defaults, before the keys are looked at.
  record IsNamed (v : ConnectionInfo) : Type 0 where
    user : is_empty v.user ≡ false
    port : is_zero v.port ≡ false
    script_path : is_empty v.script_path ≡ false

  with_defaults-IsNamed :
      (conn_info : List (Text × Text)) (sock : Text) (v : ConnectionInfo)
      → IsNamed (with_defaults libraries conn_info sock v)
  unfolding with_defaults text
  with_defaults-IsNamed conn_info sock v = ground arith

  with_valid_key-IsUsableKey :
      (v : ConnectionInfo)
      → IsNamed v
      → Ensures (λ w. IsNamed w × IsUsableKey w.private_key) (with_valid_key libraries v)
  unfolding with_valid_key
  with_valid_key-IsUsableKey v named =
      Ensures-if (not (is_empty v.private_key))
        (λ given.
          Ensures-bind _ _ (validate_private_key-IsUsableKey v.private_key)
            λ key good. Ensures-ok (record v { private_key = key }) (ground arith, good))
        λ missing. Ensures-ok v (named, usable_of_empty v.private_key missing)

  bastion_key-IsUsableKey :
      (v : ConnectionInfo)
      → IsUsableKey v.private_key
      → Ensures IsUsableKey (bastion_key libraries v)
  unfolding bastion_key
  bastion_key-IsUsableKey v key =
      Ensures-if (is_empty v.bastion_private_key) (λ missing. Ensures-ok v.private_key key)
        λ given. validate_private_key-IsUsableKey v.bastion_private_key

  with_bastion_defaults-IsSettled :
      (v : ConnectionInfo)
      → IsNamed v
      → IsUsableKey v.private_key
      → Ensures IsSettled (with_bastion_defaults libraries v)
  unfolding with_bastion_defaults
  with_bastion_defaults-IsSettled v named key =
      Ensures-if (not (is_empty v.bastion_host))
        (λ used. Ensures-bind _ _ (bastion_key-IsUsableKey v key) λ k good. Ensures-ok _ (record {
          user = named.user;
          port = named.port;
          script_path = named.script_path;
          key = key;
          bastion_user = λ _. ground (arith, named.user);
          bastion_port = λ _. ground (arith, named.port);
          bastion_key = λ _. good;
        }))
        λ unused. Ensures-ok v (record {
          user = named.user;
          port = named.port;
          script_path = named.script_path;
          key = key;
          bastion_user = λ used. cc (used, unused);
          bastion_port = λ used. cc (used, unused);
          bastion_key = λ used. absurd (unused_not_used used unused);
        })

  -- Whatever the connection block holds, a connection that is handed on has a user, a port and a
  -- script path; its private key, if it has one, is usable; and if it goes through a bastion host,
  -- it has a user, a port and a usable key, or none, for this host too.
  pub parse_connection_info-IsSettled :
      (conn_info : List (Text × Text)) (sock : Text)
      → Ensures IsSettled (parse_connection_info libraries conn_info sock)
  unfolding parse_connection_info
  parse_connection_info-IsSettled conn_info sock =
      Ensures-bind _ _ (Ensures-any (libraries.decode conn_info)) λ v _.
        Ensures-bind _ _ (with_valid_key-IsUsableKey _ (with_defaults-IsNamed conn_info sock v))
          λ w (named, key). with_bastion_defaults-IsSettled w named key
