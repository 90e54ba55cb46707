-- ===== src/Ftp/Control/Offset.antt =====
-- The offset at which the next transfer starts.
use macftpd.Prelude.{ℕ, ◌^◌, ◌<◌, ◌≡◌, refl, true}
use macftpd.Ftp.World.{Env, World}
use macftpd.Ftp.Ports.{print_nat}
use macftpd.Ftp.Ports.Numbers.{parse_int-print_nat, trim_space-print_nat, is_empty-print_nat}
use macftpd.Ftp.Control.{restart}

-- A number below 2 ^ 63, as `SIZE` writes it in its answer, is the offset that `REST` sets when it is
-- given that text.
pub restart-print_nat :
    {S : Type 0} (env : Env) (w : World S) (n : ℕ)
    → n < 2 ^ 63
    → ((restart env (print_nat n) w).session.restart_offset ≡ n)
      × ((restart env (print_nat n) w).session.restart_set ≡ true)
unfolding restart
restart-print_nat env w n small =
    rw (trim_space-print_nat n, is_empty-print_nat n, parse_int-print_nat n small) (refl, refl)
