-- ===== src/Trust/Nss/Contract.antt =====
-- What installing and uninstalling leave in the databases, with certutil's documented behaviour.
use sidedns.Text.{Text}
