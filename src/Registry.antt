-- ===== src/Registry.antt =====
-- src/link/components/registry.py: the components by their names, and the plugins that are
-- installed and loaded on demand.
pub mod Once
use Prim.Native.String.{◌++◌ as ◌<>◌}
use locai_link.Base.{
  String, Bool, true, false, not, ◌&&◌, ◌||◌, Option, none, some, List, [], ◌∷◌, ◌==◌,
  if◌then◌else◌, elem,
}
use locai_link.Dict.{Dict, lookup, insert}
use locai_link.Updater.{has_suffix}

-- The commands that an installation runs.
pub data InstallCommand : Type 0 where
  uv_editable install_script uv_requirements pip_requirements : InstallCommand

-- How a command ends: with status 0, with another one, or it cannot be run.
pub data CommandEnd : Type 0 where
  succeeded exit_failed not_run : CommandEnd

-- Which files a plugin's directory has.
pub record PluginDir : Type 0 where
  pub has_pyproject : Bool
  pub has_script : Bool
  pub has_requirements : Bool

-- An entry point of the group `locai.plugins`, with the name of its distribution, if it has one,
-- and the class that it loads, `none` if that raises.
pub record EntryPoint : Type 0 where
  pub name : String
  pub dist : Option String
  pub class : Option String

-- The directory of a plugin below the working directory, and below that one's parent; how
-- commands end; whether the program is a frozen bundle; `s.replace("-", "_").lower()`; the entry
-- points after an installation; and whether a class can be instantiated with the arguments.
pub record Place : Type 0 where
  pub here : String → Option PluginDir
  pub above : String → Option PluginDir
  pub ends : InstallCommand → CommandEnd
  pub frozen : Bool
  pub normalize : String → String
  pub entry_points : List EntryPoint
  pub instantiates : String → Bool

pub record ComponentRegistry : Type 0 where
  pub components : Dict String
  pub installed_plugins : List String

-- What is left of an installation: its commands, in order, and whether it succeeds.
pub record Installation : Type 0 where
  pub commands : List InstallCommand
  pub succeeds : Bool

-- What a call leaves; `class` is the class of the instance that it gives, `none` if it raises.
pub record PluginResult : Type 0 where
  pub registry : ComponentRegistry
  pub commands : List InstallCommand
  pub class : Option String

-- `register`: a name that is registered is overwritten.
unfoldable pub register_component : String → String → ComponentRegistry → ComponentRegistry
register_component name class r = record r { components = insert name class r.components }

unfoldable pub get_component : String → ComponentRegistry → Option String
get_component name r = lookup name r.components

unfoldable pub first_dir : Option PluginDir → Option PluginDir → Option PluginDir
first_dir none d = d
first_dir (some d) e = some d

-- One command, with what follows it.
unfoldable pub then_run : InstallCommand → CommandEnd → Installation → Installation
then_run c succeeded rest = record rest { commands = c ∷ rest.commands }
then_run c exit_failed rest = record { commands = c ∷ []; succeeds = false }
then_run c not_run rest = record { commands = c ∷ []; succeeds = false }

abbrev pub nothing_left : Installation
nothing_left = record { commands = []; succeeds = true }

module _ (w : Place) where
  unfoldable pub find_plugin_dir : String → Option PluginDir
  unfolding first_dir
  find_plugin_dir name = first_dir (w.here name) (w.above name)

  unfoldable pub run_if : Bool → InstallCommand → Installation → Installation
  unfolding then_run
  run_if false c rest = rest
  run_if true c rest = then_run c (w.ends c) rest

  -- The requirements, for which pip stands in if uv fails.
  unfoldable pub after_uv : CommandEnd → Installation
  unfolding then_run
  after_uv exit_failed =
      then_run uv_requirements succeeded
        (then_run pip_requirements (w.ends pip_requirements) nothing_left)
  after_uv e = then_run uv_requirements e nothing_left

  unfoldable pub requirements_if : Bool → Installation
  unfolding after_uv
  requirements_if false = nothing_left
  requirements_if true = after_uv (w.ends uv_requirements)

  unfoldable pub install_in : PluginDir → Installation
  unfolding run_if requirements_if
  install_in d = run_if d.has_pyproject uv_editable (
      run_if d.has_script install_script
        (requirements_if (d.has_requirements && not d.has_pyproject)))

  unfoldable pub note_installed : Bool → String → ComponentRegistry → ComponentRegistry
  note_installed false name r = r
  note_installed true name r = record r { installed_plugins = name ∷ r.installed_plugins }

  -- `_install_plugin_dependencies`
  unfoldable pub install_plugin_dependencies :
      String → PluginDir → ComponentRegistry → ComponentRegistry × Installation
  unfolding note_installed install_in
  install_plugin_dependencies name d r =
      if elem name r.installed_plugins
      then (r, nothing_left)
      else (note_installed (install_in d).succeeds name r, install_in d)

  unfoldable pub install_found :
      String → Option PluginDir → ComponentRegistry → ComponentRegistry × Installation
  install_found name none r = (r, record { commands = []; succeeds = false })
  install_found name (some d) r = install_plugin_dependencies name d r

  unfoldable pub install_plugin : String → ComponentRegistry → ComponentRegistry × Installation
  unfolding install_found find_plugin_dir
  install_plugin name r = install_found name (find_plugin_dir name) r

  unfoldable pub normalized_dist : Option String → String
  normalized_dist none = ""
  normalized_dist (some d) = w.normalize d

  -- `_get_entry_point_class`; `none` also where the class of the entry point does not load.
  unfoldable pub entry_point_class : String → List EntryPoint → Option String
  unfolding normalized_dist
  entry_point_class name [] = none
  entry_point_class name (e ∷ es) =
      let rest = entry_point_class name es in
      if e.name == name || has_suffix ("plugin_" <> name) (normalized_dist e.dist)
      then e.class
      else rest

  unfoldable pub instance_of : Option String → Option String
  instance_of none = none
  instance_of (some class) = if w.instantiates class then some class else none

  -- What `load_plugin` does once the plugin is installed, or its installation has failed.
  unfoldable pub load_installed : String → ComponentRegistry × Installation → PluginResult
  unfolding instance_of entry_point_class
  load_installed name (r, i) = record {
    registry = r;
    commands = i.commands;
    class = if i.succeeds then instance_of (entry_point_class name w.entry_points) else none;
  }

  -- A frozen bundle installs nothing, nor does a plugin without a directory.
  unfoldable pub install_if :
      Bool → String → Option PluginDir → ComponentRegistry → ComponentRegistry × Installation
  install_if frozen name none r = (r, nothing_left)
  install_if true name (some d) r = (r, nothing_left)
  install_if false name (some d) r = install_plugin_dependencies name d r

  unfoldable pub load_plugin : String → ComponentRegistry → PluginResult
  unfolding load_installed install_if find_plugin_dir
  load_plugin name r = load_installed name (install_if w.frozen name (find_plugin_dir name) r)
