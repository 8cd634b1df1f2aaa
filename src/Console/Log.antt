-- ===== src/Console/Log.antt =====
-- src/kernel/console.c: the log lines; src/shared/sbos_abi.h: the palette that src/kernel/kernel.h renames.
use sacabambaspos.Base.{ℕ, List, String, bytes, ◌▷◌}
use sacabambaspos.Console.{Console, con_fg, con_putc, con_puts}

abbrev pub c_black : ℕ
c_black = 0

abbrev pub c_red : ℕ
c_red = 4

abbrev pub c_lgrey : ℕ
c_lgrey = 7

abbrev pub c_dgrey : ℕ
c_dgrey = 8

abbrev pub c_lgreen : ℕ
c_lgreen = 10

abbrev pub c_lcyan : ℕ
c_lcyan = 11

abbrev pub c_lred : ℕ
c_lred = 12

abbrev pub c_pink : ℕ
c_pink = 13

abbrev pub c_yellow : ℕ
c_yellow = 14

abbrev pub c_white : ℕ
c_white = 15

-- `con_puts` of a literal.
unfoldable pub put : String → Console → Console
put t = con_puts (bytes t)

unfoldable pub klog_tagged : List ℕ → ℕ → List ℕ → Console → Console
klog_tagged tag tagcolor m s =
    s
    ▷ con_fg c_dgrey
    ▷ put "  ["
    ▷ con_fg tagcolor
    ▷ con_puts tag
    ▷ con_fg c_dgrey
    ▷ put "] "
    ▷ con_fg c_lgrey
    ▷ con_puts m
    ▷ con_putc b'\n'

unfoldable pub klog_ok : List ℕ → Console → Console
klog_ok = klog_tagged (bytes "  OK  ") c_lgreen

unfoldable pub klog_fail : List ℕ → Console → Console
klog_fail = klog_tagged (bytes " FAIL ") c_lred
