-- ===== src/Environments/Validity.antt =====
-- `isValidForRuntime` and the three tests that it makes. A path whose state cannot be read counts as absent.
use Prim.Native.String.{◌++◌}
use sentrazero.Base.{String, Bool, ◌&&◌, ◌==◌, if◌then◌else◌}
use sentrazero.Environments.{FileSystem}

unfoldable pub is_valid_environment : FileSystem → String → Bool
is_valid_environment disk path = disk.exists (path ++ "/.ready")

unfoldable pub is_valid_python_environment : FileSystem → String → Bool
unfolding is_valid_environment
is_valid_python_environment disk path =
    is_valid_environment disk path
    && (disk.exists (path ++ "/venv")
        && (if disk.is_windows
            then disk.exists (path ++ "/venv/Scripts/python.exe")
            else disk.exists (path ++ "/venv/bin/python")))

unfoldable pub is_valid_node_environment : FileSystem → String → Bool
unfolding is_valid_environment
is_valid_node_environment disk path =
    is_valid_environment disk path
    && (disk.exists (path ++ "/package.json") && disk.exists (path ++ "/node_modules"))

unfoldable pub is_valid_for_runtime : FileSystem → String → String → Bool
unfolding is_valid_python_environment is_valid_node_environment
is_valid_for_runtime disk path runtime_type =
    if runtime_type == "python"
    then is_valid_python_environment disk path
    else if runtime_type == "node"
    then is_valid_node_environment disk path
    else if runtime_type == "native"
    then is_valid_environment disk path
    else is_valid_environment disk path && disk.exists (path ++ "/" ++ runtime_type)
