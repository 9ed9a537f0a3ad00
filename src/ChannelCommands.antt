-- ===== src/ChannelCommands.antt =====
-- src/ChannelCommands.cpp: JOIN, PART, KICK, INVITE, TOPIC, and who becomes operator.
pub mod Succession
pub mod Join
pub mod Part
pub mod Kick
pub mod Invite
pub mod Topic
