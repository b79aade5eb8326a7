-- ===== src/Push.antt =====
-- Push notifications: what the service worker makes of a push (client/src/lib/swPushHandler.ts) and
-- of a click on its notification (client/src/sw.ts), and the subscription of the browser
-- (client/src/lib/push.ts).
pub mod Notification
pub mod Receipts
pub mod Link
pub mod Click
pub mod Subscription
mod Tests
