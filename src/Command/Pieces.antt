-- ===== src/Command/Pieces.antt =====
-- The formats by which types/play.go appends one argument to a command.
use terraform_provisioner_an.Base.{◌++◌, Text, text}
use terraform_provisioner_an.Base.Int.{ℤ, show}

-- fmt.Sprintf("%s --name", command)
unfoldable pub flag : Text → Text → Text
flag command name = command ++ (text " --" ++ name)

-- fmt.Sprintf("%s --name='%s'", command, value)
unfoldable pub option : Text → Text → Text → Text
option command name value = command ++ (text " --" ++ (name ++ (text "='" ++ (value ++ text "'"))))

-- fmt.Sprintf("%s --name=%d", command, i)
unfoldable pub number : Text → Text → ℤ → Text
number command name i = command ++ (text " --" ++ (name ++ (text "=" ++ show i)))
