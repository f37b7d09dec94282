-- ===== src/Examples/Packaging.antt =====
-- Runs of the packaging tool on a small machine.
use safe_client_libs.Shared.{
  ℕ, ◌≡◌, ◌≢◌, ◌↔◌, refl, true, false, String, ◌<>◌, Option, none, some, List, [], same_text,
}
use safe_client_libs.External.Host.{HostApi}
use safe_client_libs.Packaging.Shell.{Shell}
use safe_client_libs.Packaging.Targets.{
  linux, x86_64, find_target, host_target_triple, is_static_lib_required,
}
use safe_client_libs.Packaging.Tools.{
  get_toolchain_bin, setup_env, build, strip_lib, strip_libs, get_version_string,
}
use safe_client_libs.Packaging.Libraries.{find_libs, libs_on}
use safe_client_libs.Packaging.Archives.{package_artifacts_as_zip, package_artifacts_as_tar_gz}
use safe_client_libs.Packaging.Main.{Matches, main, normal_libs, package_all}
use safe_client_libs.Packaging.Laws.{
  candidates, present, find_libs_iff, gathered, main-archives, IsPackaged,
}

-- A path is a directory and a name, and a machine is the number of the commands that have run.
abbrev toy_host : HostApi (String × String) ℕ
toy_host = record {
  path_of = λ name. ("", name);
  same_path = λ p q. same_text p.1 q.1;
  join = λ p name. (p.0 <> (p.1 <> "/"), name);
  strip_prefix = λ p prefix. some p;
  join_path = λ p q. q;
  file_name = λ p. some p.1;
  into_text = λ p. some (p.0 <> p.1);
  with_slashes = λ name. name;
  shouty_snake_case = λ name. name;
  exists_file = λ p disk. same_text p.1 "libsafe_app.so";
  read_to_string = λ p disk. some "version";
  package_version = λ content. some "0.1.0";
  env_var = λ name disk. none;
  set_var = λ name value disk. disk;
  status = λ command args disk. (some true, disk);
  output = λ command args disk. (none, disk);
  from_utf8 = λ bytes. none;
  trim = λ text. text;
  first_bytes = λ n text. some text;
  create_file = λ p disk. some disk;
  write_archive = λ op disk. some disk;
  walk_dir = λ p disk. [];
}

abbrev library_only : Matches
library_only = record {
  name = "safe_app";
  commit = false;
  nightly = false;
  rebuild = true;
  target_triple = none;
  lib = true;
  bindings = false;
  dev = true;
  toolchain = none;
  dest = none;
  strip = true;
  artifacts = none;
}

abbrev fresh : Shell (String × String) ℕ
fresh = record { disk = 0; archives = [] }

find_libs_iff_example :
    let libs = present toy_host 0 (candidates toy_host "safe_app" none "target") in
    (((find_libs toy_host "safe_app" none "target" fresh).0 ≡ some libs) ↔ (libs ≢ []))
    × (((find_libs toy_host "safe_app" none "target" fresh).0 ≡ none) ↔ (libs ≡ []))
    × ((find_libs toy_host "safe_app" none "target" fresh).1 ≡ fresh)
find_libs_iff_example = find_libs_iff toy_host "safe_app" none "target" fresh

main-archives_example :
    (version : String) × (libs : Option (List (String × String))) × ((gathered toy_host linux x86_64
        library_only fresh).0
      ≡ some (version, libs))
    × IsPackaged toy_host linux x86_64 library_only "x86_64-unknown-linux-gnu" version libs []
        (main toy_host linux x86_64 library_only fresh).1.archives
unfolding main host_target_triple find_target setup_env get_version_string build find_libs libs_on
    is_static_lib_required strip_libs get_toolchain_bin strip_lib normal_libs package_all
    package_artifacts_as_zip package_artifacts_as_tar_gz
main-archives_example = main-archives toy_host linux x86_64 library_only fresh refl refl

-- Two archives, and what is in them.
main_run : (main toy_host linux x86_64 library_only fresh).1.archives ≢ []
unfolding main host_target_triple find_target setup_env get_version_string build find_libs libs_on
    is_static_lib_required strip_libs get_toolchain_bin strip_lib normal_libs package_all
    package_artifacts_as_zip package_artifacts_as_tar_gz
main_run h = cc
