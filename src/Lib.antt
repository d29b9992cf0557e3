-- ===== src/Lib.antt =====
-- A model of terraform-provisioner-ansible, a provisioner that runs Ansible on the resources that
-- Terraform creates: in local mode from the machine that Terraform runs on, in remote mode on the
-- resource itself.
--
-- The parts and their files.
--
-- Base: numbers, texts and results. A Go string is a list of code points (Base.Strings), an `int`
-- an integer without a bound (Base.Int) except for the timeout in milliseconds in Mode.Retry, a
-- product that wraps around as in Go, and a function that can fail gives an Outcome: a value, an
-- error, or a panic, which is a failed type assertion or an index out of range (Base.Outcome).
--
-- Go: what the program uses of Go beside strings: values of `interface{}` as Terraform's plugin
-- SDK hands them over, with the type assertions (Go.Value), and filepath.Clean, Join, Dir and
-- Base (Go.Path).
--
-- Shell: how a POSIX shell splits a command into words. It is no part of the program but the
-- reading for which the program writes, and the specification of its commands. It takes no
-- expansion: an unquoted character with a meaning to the shell makes a command unreadable.
--
-- Shellescape: shellescape/extra_vars_escape.go. `safe_loop` is the loop of `Safe`, on the runes
-- that are left; its fuel is one more than there are runes, for each round reads a rune.
--
-- Types: the package types/. One module per file, with the record of its struct, its schema, and
-- how it is read. Types.Helpers has helpers.go, where the file system is a parameter;
-- Types.Schema has what a schema promises of a value, which is the documented behaviour of
-- Terraform. Types.Play has the play, and Types.Play.Settings the methods that combine a play's
-- own values with overrides and defaults. A method that only returns a field is the field.
--
-- Command: `ToCommand` and `ToLocalCommand` of types/play.go, cut at the blocks of the functions:
-- Command.Arguments has appendSharedArguments, Command.Entities the environment and the three
-- kinds of plays, Command.Ssh toCommandArguments, and Command.Build puts them together. The
-- environment, json.Marshal, the format %+v and the order in which a map is gone through are
-- parameters (Runtime). Command.Argv has the words that a command is meant to be, and the
-- conditions on the settings.
--
-- Provisioner: validateFn and decodeConfig of provisioner/resource_provisioner.go. The recover of
-- validateFn is modelled: a panic becomes one more error behind those found so far.
--
-- Mode: from the package mode/, parseConnectionInfo (Mode.ConnectionInfo; the packages that it
-- calls are the record Libraries), the loop that asks for a host key again (Mode.Retry; in
-- ssh_bastion_keyscan.go and in mode_local.go; its fuel is the number of attempts that a caller
-- grants, and the callers grant one more than there are retries in the timeout, which is always
-- enough), the hosts and the text of the inventories of both modes (Mode.Hosts), and the loop of
-- local mode over the plays, as a function to the trace of its effects (Mode.LocalPlays;
-- temporary files and the local-exec provisioner are the record Machine), its checks and the host
-- keys that it gathers (Mode.HostKeys; the network is a parameter).
--
-- Mode.Remote is remote mode, mode/mode_remote.go: an action takes a session, which holds all
-- requests to the remote machine with their answers, to its result and the session behind it. The
-- communicator may answer each request by all that went before. Mode.Remote.Commands has
-- runCommand and the commands, Mode.Remote.Uploads vault files and the inventory,
-- Mode.Remote.Deploy deployAnsibleData, which gives the changed plays where the code changes them
-- in place, and Mode.Remote.Run the installation, the attempts to connect and Run. The fuel of
-- retryFunc is the number of attempts. Mode.Remote.Yields is the logic for what holds of a result
-- and of every later history.
--
-- Mode.LocalRun is local mode as a whole, with key files and known hosts files; its trace also
-- has each temporary file that is made, so that one whose text cannot be written is seen to stay.
-- Mode.KeyScan is the scan for a host key on the bastion host with its sessions, Mode.SshConfig
-- the configuration of an ssh client, Mode.Creation how the modes are created. And
-- Provisioner.Apply is applyFn, which decodes the configuration and runs one of the modes; its
-- World holds the parameters of all parts.
--
-- Not modelled: main.go, which only serves the plugin; what is told to the user; and the tests
-- with their ssh server.
pub mod Base
pub mod Shell
pub mod Shellescape
pub mod Go
pub mod Types
pub mod Command
pub mod Provisioner
pub mod Mode
