-- ===== src/Tests/Security.antt =====
-- The theorems about the directories of src/security.rs and about `gritty daemon` at a file system in
-- memory.
use ttyleport.Text.Decimal.{to_string}
use ttyleport.Files.{FilePath, permission_denied, directory}
use ttyleport.Files.Memory.{Node, Tree, update, memory_files, memory_files-IsLawful}
use ttyleport.Security.Dirs.{Process, is_trusted_root, make_dir, secure_create_dir_all}
use ttyleport.Security.Dirs.Secured.{Secured, secure_create_dir_all-Secured}
use ttyleport.Security.Socket.{set_socket_permissions, bind_unix_listener}
use ttyleport.Daemon.Startup.{pid_file_path, open_socket, start_daemon}
use ttyleport.Main.{parent_status}
use ttyleport.Main.Launch.{LaunchCalls, launch_daemon}
use ttyleport.Main.Launch.Served.{Stands, launch_daemon-Stands, launch_daemon_too_early}
use ttyleport.Prelude.{
  ◌≡◌, refl, pos, inr, true, false, none, some, List, [], ◌∷◌, Bytes, codes, ok, err,
}

abbrev me : Process
me = record { uid = 7; xdg_runtime_dir = none }

abbrev place : Node
place = record { metadata = record { file_type = directory; uid = 0; mode = 0o1777 }; live = false }

abbrev tmp : List Bytes
tmp = codes "tmp" ∷ []

abbrev own : List Bytes
own = codes "gritty-7" ∷ tmp

-- There is `/tmp`, and nothing in it.
abbrev booted : Tree
booted = update (λ p. none) (true, tmp) (some place)

abbrev after_own : Tree
after_own = (secure_create_dir_all (memory_files 7) me true own booted).1

makes_own : secure_create_dir_all (memory_files 7) me true own booted ≡ (ok tt, after_own)
unfolding secure_create_dir_all make_dir is_trusted_root update
makes_own = refl

secure_create_dir_all-Secured_example : Secured (memory_files 7) me booted after_own true own
secure_create_dir_all-Secured_example =
    secure_create_dir_all-Secured (memory_files 7) me (memory_files-IsLawful 7) true own booted
      after_own makes_own

abbrev ctl_sock : FilePath
ctl_sock = (true, codes "ctl.sock" ∷ own)

abbrev opened : Tree
opened = (open_socket (memory_files 7) me ctl_sock booted).1

abbrev with_pid : Tree
with_pid = ((memory_files 7).write (pid_file_path ctl_sock) (to_string 12) opened).1

opens_socket : open_socket (memory_files 7) me ctl_sock booted ≡ (ok tt, opened)
unfolding open_socket secure_create_dir_all make_dir is_trusted_root update bind_unix_listener
    set_socket_permissions
opens_socket = refl

writes_pid :
    (memory_files 7).write (pid_file_path ctl_sock) (to_string 12) opened ≡ (ok tt, with_pid)
unfolding pid_file_path open_socket secure_create_dir_all make_dir is_trusted_root update
    bind_unix_listener set_socket_permissions
writes_pid = refl

-- All that `daemonize` calls succeeds.
abbrev calls : LaunchCalls
calls = record {
  pipe = true;
  fork = true;
  setsid = true;
  open_devnull = true;
  dup2_stdin = true;
  dup2_stdout = true;
  dup2_stderr = true;
  close_devnull = true;
  runtime = true;
  write_byte = true;
  read_byte = true;
}

launches :
    (launch_daemon (memory_files 7) me false calls 3 ctl_sock 12 (ok tt) booted).status
    ≡ some (pos 0)
unfolding launch_daemon start_daemon parent_status open_socket secure_create_dir_all make_dir
    is_trusted_root update bind_unix_listener set_socket_permissions pid_file_path
launches = refl

launch_daemon-Stands_example :
    Stands
      (memory_files 7)
      me
      (memory_files-IsLawful 7)
      booted
      true
      (codes "ctl.sock")
      own
      (launch_daemon (memory_files 7) me false calls 3 ctl_sock 12 (ok tt) booted).startup
launch_daemon-Stands_example =
    launch_daemon-Stands (memory_files 7) me (memory_files-IsLawful 7) calls 3 true
      (codes "ctl.sock") own 12 (ok tt) booted launches

launch_daemon_too_early_example :
    launch_daemon (memory_files 7) me false calls 3 ctl_sock 12 (err permission_denied) booted
    ≡ record {
      status = some (pos 0);
      startup = some (record { ready = true; outcome = err permission_denied; files = with_pid });
    }
launch_daemon_too_early_example =
    launch_daemon_too_early (memory_files 7) me (memory_files-IsLawful 7) calls 3 ctl_sock 12
      (err permission_denied) booted opened with_pid permission_denied refl refl refl opens_socket
      (inr (writes_pid, refl))
