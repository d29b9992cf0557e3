-- ===== src/Mode/Remote/Installer.antt =====
-- The embedded installer of mode/mode_remote.go, `installerProgramTemplate`.
use terraform_provisioner_an.Base.{List, [], ◌∷◌, ◌++◌, Text, text}
use terraform_provisioner_an.Mode.Hosts.{lines_text}

-- Its lines, for the version of Ansible that the template is given.
unfoldable pub installer_lines : Text → List Text
installer_lines version =
    text "#!/bin/sh"
    ∷ text "if [ -n \"${TAF_DOCKER_CENTOS_LATEST_RUN}\" ]; then"
    ∷ text "  yum update -y && yum install -y which"
    ∷ text "fi"
    ∷ text "set -euo pipefail"
    ∷ text "if [ -z \"$(which ansible-playbook)\" ]; then"
    ∷ text "  # only check the cloud boot finished if the directory exists"
    ∷ text "  if [ -d /var/lib/cloud/instance ]; then"
    ∷ text "    while [ ! -f /var/lib/cloud/instance/boot-finished ]; do"
    ∷ text "      sleep 1"
    ∷ text "    done"
    ∷ text "  fi"
    ∷ text "  # install dependencies"
    ∷ text "  if [ -f /etc/redhat-release ]; then"
    ∷ text "    yum update -y \\"
    ∷ text "    && yum groupinstall -y \"Development Tools\" \\"
    ∷ text "    && yum install -y python-devel curl"
    ∷ text "  else"
    ∷ text "    apt-get update \\"
    ∷ text "    && apt-get install -y build-essential python-dev curl"
    ∷ text "  fi"
    ∷ text "  # install pip, if necessary"
    ∷ text "  if [ -z \"$(which pip)\" ]; then"
    ∷ text "    curl https://bootstrap.pypa.io/get-pip.py | python"
    ∷ text "  fi"
    ∷ text "  # install ansible"
    ∷ (text "  pip install " ++ version)
    ∷ text "else"
    ∷ (text "  expected_version=\"" ++ (version ++ text "\""))
    ∷ text "  installed_version=$(ansible-playbook --version | head -n1 | awk '{print $2}')"
    ∷ text "  installed_version=\"ansible==$installed_version\""
    ∷ text "  case \"$expected_version\" in"
    ∷ text "\t*==*)"
    ∷ text "\t  if [ \"$expected_version\" != \"$installed_version\" ]; then"
    ∷ text "        pip install $expected_version"
    ∷ text "\t  fi"
    ∷ text "\t;;"
    ∷ text "  esac"
    ∷ text "fi"
    ∷ []

unfoldable pub installer_program : Text → Text
installer_program version = lines_text (installer_lines version)
