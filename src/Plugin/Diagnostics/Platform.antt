-- ===== src/Plugin/Diagnostics/Platform.antt =====
-- What the preprocessor selects in `get_os_name` and `get_architecture_name` (src/snap/plugin.cc), by the
-- macros that are defined and not 0.
use snap_plugin_lib_cpp.Base.{Bool, ◌||◌, String, if◌then◌else◌}

pub record Macros : Type 0 where
  pub linux : Bool
  pub win32 : Bool
  pub win64 : Bool
  pub apple : Bool
  pub mach : Bool
  pub i386 : Bool
  pub amd64 : Bool
  pub ia64 : Bool

-- The macros, and the three numbers of the compiler's version with dots between them.
pub record Platform : Type 0 where
  pub macros : Macros
  pub gcc_version : String

unfoldable pub get_os_name : Macros → String
get_os_name m =
    if m.linux
    then "linux"
    else if m.win32
    then "windows 32-bit"
    else if m.win64
    then "windows 64-bit"
    else if m.apple || m.mach
    then "mac OSX"
    else "unknown"

unfoldable pub get_architecture_name : Macros → String
get_architecture_name m =
    if m.i386
    then "Intel x86"
    else if m.amd64
    then "amd64"
    else if m.ia64
    then "Intel Itanium"
    else "unknown"
